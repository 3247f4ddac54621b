-- ===== src/Hex/Spec.antt =====
-- What a hexadecimal dump should be: digits by arithmetic, separators by the index of the byte.
use fixed_str.Common.{
  ℕ, ◌+◌, ◌-◌, ◌*◌, ◌/◌, ◌%◌, ◌<◌, ◌≡◌, refl, Bool, true, false, ◌&&◌, Option, none, some, [], ◌∷◌,
  ◌++◌, ltb, ◌==◌, if◌then◌else◌, take, arith, get_elem?, Option-cases, inl, inr, sym, ◌∙◌, All,
  All-append, All-take, lt→ltb, ◌≤◌, length, length-append, length-take,
}
use fixed_str.Common.Bits.{passes, passes-lt}
use fixed_str.Error.{Outcome, ok}
use fixed_str.Utf8.{Bytes, IsUtf8, step, lead}
use fixed_str.Helpers.Null.{NoNull}
use fixed_str.Hex.{hex_table, hex_pair}

abbrev pub hex_digit : ℕ → ℕ
hex_digit d = if ltb d 10 then b'0' + d else b'A' + (d - 10)

-- Nothing before the first byte, a newline before each group, a space before any other byte.
abbrev pub separator : ℕ → ℕ → Bytes
separator group i = if i == 0 then [] else if i % group == 0 then b'\n' ∷ [] else b' ' ∷ []

-- The text of the bytes from the one with the index `i` on.
abbrev pub hex_text : ℕ → ℕ → Bytes → Bytes
hex_text group i [] = []
hex_text group i (b ∷ bytes) =
    separator group i ++ hex_digit (b / 16) ∷ hex_digit (b % 16) ∷ hex_text group (i + 1) bytes

-- How many lines are shown: a limit of 0 shows one.
abbrev pub lines : ℕ → ℕ
lines max = if max == 0 then 1 else max

-- The bytes within the limit, from the one with the index `i` on.
abbrev pub shown : ℕ → Option ℕ → ℕ → Bytes → Bytes
shown group none i bytes = bytes
shown group (some max) i bytes = take (group * lines max - i) bytes

abbrev agrees : ℕ → Bool
agrees b = elim (get_elem? hex_table b) [
  | none ↦ false
  | some (x, y) ↦ (x == hex_digit (b / 16)) && (y == hex_digit (b % 16))
]

table_agrees : passes agrees 256 ≡ true
unfolding passes hex_table
table_agrees = refl

same_pair :
    (x y u v : ℕ) → (x == u) && (y == v) ≡ true → Path (Outcome (ℕ × ℕ)) (ok (x, y)) (ok (u, v))
same_pair x y u v h = let e : x ≡ u = ground arith in let e' : y ≡ v = ground arith in rw (e, e')

-- Every entry of the table is the two digits of its index.
pub hex_pair_lem : (b : ℕ) → b < 256 → hex_pair b ≡ ok (hex_digit (b / 16), hex_digit (b % 16))
unfolding hex_pair
hex_pair_lem b h =
    let t = passes-lt agrees 256 h table_agrees in
    elim (Option-cases (get_elem? hex_table b)) [
      | inl e ↦ let t' : false ≡ true = sym (rw (e, agrees)) ∙ t in absurd (cc)
      | inr ((x, y), e) ↦
          let t' : (x == hex_digit (b / 16)) && (y == hex_digit (b % 16)) ≡ true =
            sym (rw (e, agrees)) ∙ t in
          let r : hex_pair b ≡ ok (x, y) = rw (e, hex_pair) in
          r ∙ same_pair x y (hex_digit (b / 16)) (hex_digit (b % 16)) t'
    ]

-- The text is ASCII without the null character.
abbrev pub IsPrintable : ℕ → Type 0
IsPrintable b = (0 < b) × (b < 128)

hex_digit-IsPrintable : (d : ℕ) → d < 16 → IsPrintable (hex_digit d)
hex_digit-IsPrintable d h = ground arith

separator-IsPrintable : (group i : ℕ) → All IsPrintable (separator group i)
separator-IsPrintable group i = ground arith

pub hex_text-IsPrintable :
    (group i : ℕ) (bytes : Bytes)
    → All (λ b. b < 256) bytes
    → All IsPrintable (hex_text group i bytes)
hex_text-IsPrintable group i [] hb = tt
hex_text-IsPrintable group i (b ∷ bytes) (hb, hbs) =
    All-append IsPrintable (separator group i) _ (separator-IsPrintable group i) (
      hex_digit-IsPrintable (b / 16) (omega arith),
      (hex_digit-IsPrintable (b % 16) (omega arith), hex_text-IsPrintable group (i + 1) bytes hbs),
    )

pub IsPrintable-NoNull : (s : Bytes) → All IsPrintable s → NoNull s
IsPrintable-NoNull [] h = tt
IsPrintable-NoNull (b ∷ s) (h, hs) = (ground arith, IsPrintable-NoNull s hs)

pub IsPrintable-IsUtf8 : (s : Bytes) → All IsPrintable s → IsUtf8 s
unfolding step lead
IsPrintable-IsUtf8 [] h = refl
IsPrintable-IsUtf8 (b ∷ s) (h, hs) = rw (lt→ltb b 128 h.1) (IsPrintable-IsUtf8 s hs)

pub shown-All :
    (group : ℕ) (m : Option ℕ) (bytes : Bytes)
    → All (λ b. b < 256) bytes
    → All (λ b. b < 256) (shown group m 0 bytes)
shown-All group none bytes h = h
shown-All group (some max) bytes h = All-take (λ b. b < 256) (group * lines max - 0) bytes h

length-separator : (group i : ℕ) → length (separator group i) ≤ 1
length-separator group i = ground arith

pub length-hex_text :
    (group i : ℕ) (bytes : Bytes) → length (hex_text group i bytes) ≤ 3 * length bytes
length-hex_text group i [] = omega arith
length-hex_text group i (b ∷ bytes) = omega (
  arith,
  length-append (separator group i) _,
  length-separator group i,
  length-hex_text group (i + 1) bytes,
)

pub length-shown :
    (group : ℕ) (m : Option ℕ) (bytes : Bytes) → length (shown group m 0 bytes) ≤ length bytes
length-shown group none bytes = omega arith
length-shown group (some max) bytes = omega (arith, length-take (group * lines max - 0) bytes)
