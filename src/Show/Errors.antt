-- ===== src/Show/Errors.antt =====
-- The texts of the errors, of src/fs_error.rs, read back as a format string and its arguments.
use native.Mathlib.Decide.{dec_lt}
use fixed_str.Utf8.{Bytes}
use fixed_str.Common.{
  ℕ, zero, suc, ◌+◌, ◌-◌, ◌*◌, ◌/◌, ◌%◌, ◌<◌, Bool, ◌&&◌, Option, none, some, List, [], ◌∷◌, ◌++◌,
  leb, le→leb, true, false, ◌==◌, if◌then◌else◌, lt→ltb, le→ltb, append_assoc, append-nil, ◌≡◌,
  refl, ap, arith, append_cancel, ◌↔◌,
}
use fixed_str.Error.{FixedStrError, overflow, invalid_utf8}
use fixed_str.Hex.{codes}
use fixed_str.Show.{decimal, decimal_loop, error_debug, error_display}
use fixed_str.Show.Decimal.{decimal_injective, decimal_cut}

error_display_injective : (e e' : FixedStrError) → error_display e ≡ error_display e' → e ≡ e'
unfolding error_display
error_display_injective (overflow a f) (overflow a' f') h =
    let h1 = append_cancel (codes "Overflow: tried to add ") _ _ h in
    let (same, h2) = decimal_cut f f' 32 _ _ (omega arith) h1 in
    let h3 = append_cancel (codes "bytes with only ") _ _ h2 in
    let (same', h4) = decimal_cut a a' 32 _ _ (omega arith) h3 in cc
error_display_injective (overflow a f) invalid_utf8 h = absurd cc
error_display_injective invalid_utf8 (overflow a f) h = absurd cc
error_display_injective invalid_utf8 invalid_utf8 h = refl

error_debug_injective : (e e' : FixedStrError) → error_debug e ≡ error_debug e' → e ≡ e'
unfolding error_debug
error_debug_injective (overflow a f) (overflow a' f') h =
    let h1 = append_cancel (codes "Overflow: available ") _ _ h in
    let (same, h2) = decimal_cut a a' 44 _ _ (omega arith) h1 in
    let h3 = append_cancel (codes " found ") _ _ h2 in let same' = decimal_injective f f' h3 in cc
error_debug_injective (overflow a f) invalid_utf8 h = absurd cc
error_debug_injective invalid_utf8 (overflow a f) h = absurd cc
error_debug_injective invalid_utf8 invalid_utf8 h = refl

abbrev is_digit : ℕ → Bool
is_digit b = leb b'0' b && leb b b'9'

-- A text as its format string and the arguments, each argument a number without leading zeros:
-- the number that is being read, if any, and the text.
abbrev pub parse : Option ℕ → Bytes → Bytes × List ℕ
parse none [] = ([], [])
parse (some n) [] = ([], n ∷ [])
parse none (b ∷ s) =
    let inside = parse (some (b - b'0')) s in
    let outside = parse none s in
    if is_digit b then (codes "{}" ++ inside.0, inside.1) else (b ∷ outside.0, outside.1)
parse (some n) (b ∷ s) =
    let more = parse (some (n * 10 + (b - b'0'))) s in
    let next = parse (some (b - b'0')) s in
    let outside = parse none s in
    if is_digit b
    then if n == 0 then (codes "{}" ++ next.0, n ∷ next.1) else more
    else (b ∷ outside.0, n ∷ outside.1)

is_digit_lem : (d : ℕ) → d < 10 → is_digit (b'0' + d) ≡ true
is_digit_lem d h = rw (le→leb 48 (48 + d) (omega arith), le→leb (48 + d) 57 (omega arith)) refl

parse_first :
    (d : ℕ) (s : Bytes)
    → d < 10
    → parse none ((b'0' + d) ∷ s) ≡ (codes "{}" ++ (parse (some d) s).0, (parse (some d) s).1)
parse_first d s h = let back : b'0' + d - b'0' ≡ d = omega arith in rw (is_digit_lem d h, back) refl

parse_next :
    (m d : ℕ) (s : Bytes)
    → 0 < m
    → d < 10
    → parse (some m) ((b'0' + d) ∷ s) ≡ parse (some (m * 10 + d)) s
parse_next m d s pos h =
    let back : b'0' + d - b'0' ≡ d = omega arith in
    let more : (m == 0) ≡ false = ground arith in rw (is_digit_lem d h, back, more) refl

parse-decimal_loop :
    (fuel n : ℕ) (s : Bytes)
    → n < fuel
    → parse none (decimal_loop fuel n ++ s)
      ≡ (codes "{}" ++ (parse (some n) s).0, (parse (some n) s).1)
unfolding decimal_loop
parse-decimal_loop zero n s h = absurd (omega arith)
parse-decimal_loop (suc fuel) n s h = elim (dec_lt n 10) [
  | yes small ↦ rw (lt→ltb n 10 small) (parse_first n s small)
  | no big ↦
      let whole : n / 10 * 10 + n % 10 ≡ n = omega arith in
      let last = (b'0' + n % 10) ∷ [] in
      rw
        (
          le→ltb n 10 (omega arith),
          append_assoc (decimal_loop fuel (n / 10)) last s,
          parse-decimal_loop fuel (n / 10) (last ++ s) (omega arith),
          parse_next (n / 10) (n % 10) s (omega arith) (omega arith),
          whole,
        )
        refl
]

parse-decimal :
    (n : ℕ) (s : Bytes)
    → parse none (decimal n ++ s) ≡ (codes "{}" ++ (parse (some n) s).0, (parse (some n) s).1)
unfolding decimal
parse-decimal n s = parse-decimal_loop (suc n) n s (omega arith)

-- The format strings of `Display` and of `Debug`, with their arguments. The digit of UTF-8 reads as
-- one as well.
abbrev pub display_format : FixedStrError → Bytes × List ℕ
display_format (overflow available found) =
    (codes "Overflow: tried to add {} bytes with only {} bytes available", found ∷ available ∷ [])
display_format invalid_utf8 = (codes "Invalid UTF-{}", 8 ∷ [])

abbrev pub debug_format : FixedStrError → Bytes × List ℕ
debug_format (overflow available found) =
    (codes "Overflow: available {}, found {}", available ∷ found ∷ [])
debug_format invalid_utf8 = (codes "InvalidUtf{}", 8 ∷ [])

parse-error_display : (e : FixedStrError) → parse none (error_display e) ≡ display_format e
unfolding error_display
parse-error_display (overflow a f) = rw (parse-decimal f) (rw (parse-decimal a) refl)
parse-error_display invalid_utf8 = refl

parse-error_debug : (e : FixedStrError) → parse none (error_debug e) ≡ debug_format e
unfolding error_debug
parse-error_debug (overflow a f) =
    rw (parse-decimal a) (rw (← append-nil (decimal f)) (rw (parse-decimal f []) refl))
parse-error_debug invalid_utf8 = refl

-- The texts of an error, read as a format string and the numbers in it without leading zeros, are
-- the format strings of `Display` and `Debug` with their arguments: `Display` names the length
-- first and the room second, `Debug` the other way round. Two errors are equal exactly where their
-- `Display` texts are equal, and exactly where their `Debug` texts are.
pub parse-error_texts :
    (e e' : FixedStrError)
    → (parse none (error_display e) ≡ display_format e)
      × (parse none (error_debug e) ≡ debug_format e)
      × ((error_display e ≡ error_display e') ↔ (e ≡ e'))
      × ((error_debug e ≡ error_debug e') ↔ (e ≡ e'))
parse-error_texts e e' = (
  parse-error_display e,
  parse-error_debug e,
  (error_display_injective e e', ap error_display),
  (error_debug_injective e e', ap error_debug),
)
