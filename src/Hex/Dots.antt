-- ===== src/Hex/Dots.antt =====
-- The dots that `fast_format_hex` of src/string_helpers.rs puts over the end of a text that does not
-- fit.
use native.Mathlib.Decide.{dec_lt}
use fixed_str.Common.{
  ℕ, zero, suc, ◌+◌, ◌-◌, ◌≤◌, ◌<◌, ◌≡◌, refl, Option, [], ◌∷◌, ◌++◌, leb, if◌then◌else◌, lt→ltb,
  le→leb, lt→leb, take, arith, inl, inr, ◌⊎◌, All, Bool-cases, length, set, drop, drop-append,
  take-append_le, append_assoc, length-append, length-take, ◌^◌, All-append, All-take, length-set,
}
use fixed_str.Error.{ok, ◌>>=◌}
use fixed_str.Utf8.{Bytes}
use fixed_str.Slice.{write_lem, zeros}
use fixed_str.Helpers.Copy.{pad, length-pad}
use fixed_str.Hex.{mark_truncated, fast_format_hex}
use fixed_str.Hex.Spec.{hex_text, shown, hex_text-IsPrintable, shown-All, IsPrintable}
use fixed_str.Hex.Format.{fast_format_hex_lem, finalize_printable}
use fixed_str.Hex.Short.{short, format_loop-Stops}

-- Three writes in a row.
set_three :
    (s : Bytes) (i j k d x y z : ℕ)
    → j ≡ i + 1
    → k ≡ i + 2
    → d ≡ i + 3
    → i + 3 ≤ length s
    → set (set (set s i x) j y) k z ≡ take i s ++ x ∷ y ∷ z ∷ drop d s
set_three [] i j k d x y z ej ek ed h = absurd (omega arith)
set_three (a ∷ []) zero j k d x y z ej ek ed h = absurd (omega arith)
set_three (a ∷ b ∷ []) zero j k d x y z ej ek ed h = absurd (omega arith)
set_three (a ∷ b ∷ e ∷ s) zero j k d x y z ej ek ed h =
    let ej' : j ≡ 1 = omega arith in
    let ek' : k ≡ 2 = omega arith in let ed' : d ≡ 3 = omega arith in rw (ej', ek', ed') refl
set_three (a ∷ s) (suc i) zero k d x y z ej ek ed h = absurd (omega arith)
set_three (a ∷ s) (suc i) (suc j) zero d x y z ej ek ed h = absurd (omega arith)
set_three (a ∷ s) (suc i) (suc j) (suc k) zero x y z ej ek ed h = absurd (omega arith)
set_three (a ∷ s) (suc i) (suc j) (suc k) (suc d) x y z ej ek ed h =
    rw (set_three s i j k d x y z (omega arith) (omega arith) (omega arith) (omega arith)) refl

abbrev pub dots : Bytes
dots = b'.' ∷ b'.' ∷ b'.' ∷ []

-- The end of a text gives way to three dots, if there is room for them.
abbrev pub dotted : Bytes → Bytes
dotted t = if leb 3 (length t) then take (length t - 3) t ++ dots else t

length-dotted : (t : Bytes) → length (dotted t) ≡ length t
length-dotted t =
    ground (arith, length-append (take (length t - 3) t) dots, length-take (length t - 3) t)

-- The buffer and the position after the dots.
mark_truncated_lem :
    (N : ℕ) (t : Bytes) (c l : ℕ)
    → length t ≤ N
    → mark_truncated N (short N t c l) ≡ ok (short N (dotted t) c l)
unfolding mark_truncated
mark_truncated_lem N t c l h = elim (dec_lt (length t) 3) [
  | yes few ↦ rw (lt→leb 3 (length t) few) refl
  | no enough ↦
      let i = length t - 3 in
      let s = pad N t in
      let size = length-pad N t h in
      let end : i + 3 ≡ length t = omega arith in
      let n : length (take i t ++ dots) ≡ length t =
        omega (arith, length-append (take i t) dots, length-take i t) in
      rw
        (
          le→leb 3 (length t) (omega arith),
          le→leb (i + 3) N (omega arith),
          write_lem s i b'.' (omega (arith, size)),
          ◌>>=◌,
          write_lem (set s i b'.') (i + 1) b'.' (omega (arith, size, length-set s i b'.')),
          write_lem (set (set s i b'.') (i + 1) b'.') (i + 2) b'.'
              (omega (arith, size, length-set s i b'.', length-set (set s i b'.') (i + 1) b'.')),
          set_three s i (i + 1) (i + 2) (length t) b'.' b'.' b'.' refl refl (omega arith)
              (omega (arith, size)),
        )
        (rw
          (
            take-append_le t (zeros (N - length t)) i (omega arith),
            drop-append t (zeros (N - length t)) (length t) refl,
            n,
            end,
            append_assoc (take i t) dots (zeros (N - length t)),
          )
          refl)
]

dotted-IsPrintable : (t : Bytes) → All IsPrintable t → All IsPrintable (dotted t)
dotted-IsPrintable t h = elim (Bool-cases (leb 3 (length t))) [
  | inr few ↦ rw few h
  | inl enough ↦ rw enough (
      All-append IsPrintable (take (length t - 3) t) dots (All-take IsPrintable (length t - 3) t h)
        (
          (omega arith, omega arith),
          ((omega arith, omega arith), ((omega arith, omega arith), tt)),
        ))
]

pub fast_format_hex-dotted :
    (N : ℕ) (bytes : Bytes) (group : ℕ) (m : Option ℕ)
    → 0 < N
    → N < 2 ^ 63
    → 0 < group
    → All (λ b. b < 256) bytes
    → N < length (hex_text group 0 (shown group m 0 bytes))
    → (k : ℕ) × (k ≤ N)
      × (N < k + 2)
      × (fast_format_hex N bytes group m
          ≡ ok (record {
            bytes = pad N (dotted (take k (hex_text group 0 (shown group m 0 bytes))));
          }))
unfolding fast_format_hex
fast_format_hex-dotted N bytes group m pos small hg hb h =
    let whole = hex_text group 0 (shown group m 0 bytes) in
    let r = format_loop-Stops N group m bytes hg hb h in
    let t = take r.k whole in
    let fits : length t ≤ N = omega (arith, length-take r.k whole, r.room) in
    let printable = dotted-IsPrintable t (
      All-take IsPrintable r.k whole
        (hex_text-IsPrintable group 0 (shown group m 0 bytes) (shown-All group m bytes hb))) in
    let fits' : length (dotted t) ≤ N = omega (arith, length-dotted t, fits) in
    let fin = finalize_printable N (dotted t) pos small fits' printable in
    (
      r.k,
      omega (arith, r.room),
      omega (arith, r.full),
      rw (lt→ltb 0 group hg, r.ends, ◌>>=◌, mark_truncated_lem N t r.c r.l fits) fin,
    )

-- What `fast_format_hex` shows of the text `whole` in `N` bytes: all of it, or a prefix that leaves
-- less than two bytes, with dots at its end.
abbrev pub IsShown : ℕ → Bytes → Bytes → Type 0
IsShown N whole t =
    ((length whole ≤ N) × (t ≡ whole))
    ⊎ ((k : ℕ) × (N < length whole) × (k ≤ N) × (N < k + 2) × (t ≡ dotted (take k whole)))

-- With a group above 0, a capacity from 1 to 2^63 - 1, and bytes below 256, `fast_format_hex`
-- returns the text of the bytes that the limit of lines shows (two digits for each byte, a newline
-- before each group but the first, a space before any other byte but the first), padded with
-- nulls. Of a text that does not fit it shows a prefix that leaves less than two bytes, its last
-- three characters replaced by dots if it has as many.
pub fast_format_hex-IsShown :
    (N : ℕ) (bytes : Bytes) (group : ℕ) (m : Option ℕ)
    → 0 < N
    → N < 2 ^ 63
    → 0 < group
    → All (λ b. b < 256) bytes
    → (t : Bytes) × IsShown N (hex_text group 0 (shown group m 0 bytes)) t
      × (fast_format_hex N bytes group m ≡ ok (record { bytes = pad N t }))
fast_format_hex-IsShown N bytes group m pos small hg hb =
    let whole = hex_text group 0 (shown group m 0 bytes) in
    elim (dec_lt N (length whole)) [
      | no fits ↦ (
        whole,
        inl (omega arith, refl),
        fast_format_hex_lem N bytes group m pos small hg hb (omega arith),
      )
      | yes big ↦
          let (k, low, high, e) = fast_format_hex-dotted N bytes group m pos small hg hb big in
          (dotted (take k whole), inr (k, big, low, high, refl), e)
    ]
