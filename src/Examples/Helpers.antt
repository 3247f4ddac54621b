-- ===== src/Examples/Helpers.antt =====
-- The helpers on concrete bytes.
use fixed_str.Common.{
  ℕ, suc, ◌≡◌, ◌≢◌, refl, min, Option, none, some, [], ◌∷◌, length, arith, true, false, ◌==◌,
  if◌then◌else◌, get_elem?, take, All, leb, ==_iff, Bool-cases, inl, inr, Option-cases, sym, ◌∙◌,
}
use mathlib.Core.Option
use fixed_str.Error.{ok, err, overflow}
use fixed_str.Utf8.{Bytes, encode_utf8, IsUtf8, step, lead, is_utf8}
use fixed_str.Slice.{Returns, slice_to, index}
use fixed_str.Helpers.{
  find_valid_utf8_len, search_loop, find_valid_boundary, boundary_loop, next_boundary,
  skip_continuation, lead_width, find_first_null, find_first_null_memchr, copy_into_buffer, exact,
  slice, truncate,
}
use fixed_str.Helpers.Search.{IsCut}
use fixed_str.Helpers.Largest.{IsLargest}
use fixed_str.Helpers.Rounds.{find_valid_utf8_len-rounds}
use fixed_str.Helpers.Boundary.{find_valid_boundary-IsLargest}
use fixed_str.Helpers.Null.{IsMemchr, find_first_null_memchr_lem}
use fixed_str.Helpers.Copy.{IsTruncated, pad, copy_into_buffer_modes}

-- `d😊b`
abbrev pub smiling : Bytes
smiling = 0x64 ∷ 0xf0 ∷ 0x9f ∷ 0x98 ∷ 0x8a ∷ 0x62 ∷ []

smile : encode_utf8 0x1f60a ≡ 0xf0 ∷ 0x9f ∷ 0x98 ∷ 0x8a ∷ []
unfolding encode_utf8
smile = refl

smiling_len : find_valid_utf8_len smiling 4 ≡ ok 1
unfolding find_valid_utf8_len search_loop find_first_null slice_to is_utf8 step lead
smiling_len = refl

smiling_upper : 4 ≡ min 4 (find_first_null smiling)
unfolding find_first_null
smiling_upper = refl

smiling_boundary : find_valid_boundary smiling 4 ≡ ok 1
unfolding find_valid_boundary boundary_loop next_boundary skip_continuation lead_width index
smiling_boundary = refl

find_valid_utf8_len-rounds_example :
    (find_valid_utf8_len smiling 4
      ≡ (if is_utf8 (take 4 smiling) then ok 4 else search_loop 4 smiling 0 4))
    × Returns (find_valid_utf8_len smiling 4) (IsCut smiling 4)
find_valid_utf8_len-rounds_example =
    find_valid_utf8_len-rounds smiling 4 4 3 (omega arith) smiling_upper (omega arith)

smiling-IsUtf8 : IsUtf8 smiling
unfolding step lead
smiling-IsUtf8 = refl

find_valid_boundary-IsLargest_example :
    Returns (find_valid_boundary smiling 4) (IsLargest smiling (min 4 (length smiling)))
find_valid_boundary-IsLargest_example = find_valid_boundary-IsLargest smiling 4 smiling-IsUtf8

-- A search for a byte, in the place of `memchr`.
abbrev scan : ℕ → Bytes → Option ℕ
scan c [] = none
scan c (b ∷ s) = if b == c then some 0 else Option.map suc (scan c s)

scan_here : (c b i : ℕ) (s : Bytes) → (b == c) ≡ true → scan c (b ∷ s) ≡ some i → (i ≡ 0) × (b ≡ c)
scan_here c b i s eq e = let e' : some 0 ≡ some i = sym (rw eq) ∙ e in (cc, (==_iff b c).0 eq)

scan_later :
    (c b i : ℕ) (s : Bytes)
    → (b == c) ≡ false
    → scan c (b ∷ s) ≡ some i
    → (j : ℕ) × (scan c s ≡ some j) × (i ≡ suc j)
scan_later c b i s ne e =
    let e' : Option.map suc (scan c s) ≡ some i = sym (rw ne) ∙ e in
    elim (Option-cases (scan c s)) [
      | inl n ↦ let e'' : none ≡ some i = sym (rw n) ∙ e' in absurd cc
      | inr (j, n) ↦ let e'' : some (suc j) ≡ some i = sym (rw n) ∙ e' in (j, n, cc)
    ]

scan_found :
    (c : ℕ) (s : Bytes) (i : ℕ)
    → scan c s ≡ some i
    → (get_elem? s i ≡ some c) × All (λ b. b ≢ c) (take i s)
scan_found c [] i e = absurd cc
scan_found c (b ∷ s) i e = elim (Bool-cases (b == c)) [
  | inl eq ↦ let (z, at) = scan_here c b i s eq e in rw (z, at) (refl, tt)
  | inr ne ↦
      let (j, n, z) = scan_later c b i s ne e in
      let (at, before) = scan_found c s j n in rw z (at, (ground arith, before))
]

scan_missing : (c : ℕ) (s : Bytes) → scan c s ≡ none → All (λ b. b ≢ c) s
scan_missing c [] e = tt
scan_missing c (b ∷ s) e = elim (Bool-cases (b == c)) [
  | inl eq ↦ let e' : some 0 ≡ none = sym (rw eq) ∙ e in absurd cc
  | inr ne ↦
      let e' : Option.map suc (scan c s) ≡ none = sym (rw ne) ∙ e in
      elim (Option-cases (scan c s)) [
        | inl n ↦ (ground arith, scan_missing c s n)
        | inr (j, n) ↦ let e'' : some (suc j) ≡ none = sym (rw n) ∙ e' in absurd cc
      ]
]

scan-IsMemchr : IsMemchr scan
scan-IsMemchr = record { found = λ c s e. scan_found c s _ e; missing = scan_missing }

find_first_null_memchr_lem_example :
    find_first_null_memchr scan (0x68 ∷ 0x69 ∷ 0 ∷ 0x68 ∷ [])
    ≡ find_first_null (0x68 ∷ 0x69 ∷ 0 ∷ 0x68 ∷ [])
find_first_null_memchr_lem_example =
    find_first_null_memchr_lem scan scan-IsMemchr (0x68 ∷ 0x69 ∷ 0 ∷ 0x68 ∷ [])

copy_into_buffer_modes_example :
    (copy_into_buffer 4 smiling exact
      ≡ (if leb (length smiling) 4 then ok (pad 4 smiling) else err (overflow 4 (length smiling))))
    × (copy_into_buffer 4 smiling slice ≡ ok (pad 4 (take 4 smiling)))
    × Returns (copy_into_buffer 4 smiling truncate) (IsTruncated 4 smiling)
copy_into_buffer_modes_example = copy_into_buffer_modes 4 smiling (omega arith) (omega arith)
