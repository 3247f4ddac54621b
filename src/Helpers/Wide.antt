-- ===== src/Helpers/Wide.antt =====
-- Strings of characters of four bytes: where the binary search of `find_valid_utf8_len` of
-- src/string_helpers.rs gives up every character.
use fixed_str.Common.{
  ℕ, zero, suc, ◌+◌, ◌-◌, ◌*◌, ◌/◌, ◌%◌, ◌^◌, ◌≤◌, ◌<◌, ◌≡◌, ◌≢◌, refl, true, false, List, [], ◌∷◌,
  length, take, All, arith, Bool-cases, inl, inr, ◌∙◌, All-append, length-append, take-append_le,
  take-append_add, lt→leb, le→leb, ap, sym, take-nil,
}
use native.Mathlib.Decide.{dec_lt}
use fixed_str.Error.{ok}
use fixed_str.Utf8.{IsUtf8, is_utf8, is_scalar, encode_utf8}
use fixed_str.Utf8.Run.{is_utf8_iff, IsUtf8-append_right}
use fixed_str.Utf8.Encode.{encode_utf8-IsUtf8}
use fixed_str.Utf8.Chars.{encode_all, AllScalar}
use fixed_str.Helpers.{search_loop, find_valid_utf8_len}
use fixed_str.Helpers.Null.{NoNull, find_first_null-NoNull}
use fixed_str.Helpers.Search.{
  IsSlice, midpoint, midpoint_exact, search_loop_step, search_loop_done,
  find_valid_utf8_len_invalid,
}
use fixed_str.Helpers.Fit.{fit, encode_utf8_partial}
use fixed_str.Helpers.Rounds.{two_pow, lt_two_pow}

-- A character that takes four bytes.
abbrev pub IsWide : ℕ → Type 0
IsWide c = (is_scalar c ≡ true) × (0x10000 ≤ c)

length-wide : (c : ℕ) → IsWide c → length (encode_utf8 c) ≡ 4
unfolding encode_utf8
length-wide c h = ground arith

wide-NoNull : (c : ℕ) → IsWide c → NoNull (encode_utf8 c)
unfolding encode_utf8
wide-NoNull c h = ground arith

pub wide-AllScalar : (cs : List ℕ) → All IsWide cs → AllScalar cs
wide-AllScalar [] h = tt
wide-AllScalar (c ∷ cs) (h, hs) = (h.0, wide-AllScalar cs hs)

pub length-encode_all : (cs : List ℕ) → All IsWide cs → length (encode_all cs) ≡ 4 * length cs
length-encode_all [] h = refl
length-encode_all (c ∷ cs) (h, hs) =
    omega (
      arith,
      length-append (encode_utf8 c) (encode_all cs),
      length-wide c h,
      length-encode_all cs hs,
    )

encode_all-NoNull : (cs : List ℕ) → All IsWide cs → NoNull (encode_all cs)
encode_all-NoNull [] h = tt
encode_all-NoNull (c ∷ cs) (h, hs) =
    All-append (λ b. b ≢ 0) (encode_utf8 c) (encode_all cs) (wide-NoNull c h)
      (encode_all-NoNull cs hs)

-- A valid prefix ends at a multiple of four.
wide_cut :
    (cs : List ℕ) (m : ℕ)
    → All IsWide cs
    → m ≤ 4 * length cs
    → IsUtf8 (take m (encode_all cs))
    → m % 4 ≡ 0
wide_cut [] m h fits v = omega arith
wide_cut (c ∷ cs) zero h fits v = omega arith
wide_cut (c ∷ cs) (suc k) (h, hs) fits v =
    let e = encode_utf8 c in
    let four = length-wide c h in
    elim (dec_lt (suc k) 4) [
      | yes inside ↦ absurd (
          encode_utf8_partial c (suc k) h.0 (omega arith) (omega arith)
            (rw (take-append_le e (encode_all cs) (suc k) (omega arith)) at v))
      | no behind ↦
          let m = suc k - 4 in
          let split = take-append_add e (encode_all cs) (suc k) m (omega arith) in
          let v' =
            IsUtf8-append_right e (take m (encode_all cs)) (encode_utf8-IsUtf8 c h.0)
              (rw split at v) in
          let rest = wide_cut cs m hs (omega arith) v' in omega arith
    ]

not_cut :
    (cs : List ℕ) (m : ℕ)
    → All IsWide cs
    → m ≤ 4 * length cs
    → 0 < m % 4
    → is_utf8 (take m (encode_all cs)) ≡ false
not_cut cs m h fits odd = elim (Bool-cases (is_utf8 (take m (encode_all cs)))) [
  | inr bad ↦ bad
  | inl good ↦ absurd (omega (arith, wide_cut cs m h fits ((is_utf8_iff _).0 good)))
]

module _ (cs : List ℕ) (wide : All IsWide cs) (small : IsSlice (encode_all cs)) where
  -- From the interval `0 .. 2 ^ (j + 1) - 2` every midpoint is odd.
  search_loop_wide :
      (j fuel high : ℕ)
      → high + 2 ≡ 2 * 2 ^ j
      → high ≤ 4 * length cs
      → j < fuel
      → search_loop fuel (encode_all cs) 0 high ≡ ok 0
  search_loop_wide j zero high e fits more = absurd (omega arith)
  search_loop_wide zero (suc fuel) high e fits more =
      search_loop_done (encode_all cs) small high (omega (arith, length-encode_all cs wide)) fuel 0
        high (omega arith)
  search_loop_wide (suc j) (suc fuel) high e fits more =
      let size = length-encode_all cs wide in
      let double = two_pow j in
      let mid = midpoint_exact 0 high (omega (arith, lt_two_pow j)) (omega arith) in
      let odd = not_cut cs (midpoint 0 high) wide (omega arith) (omega arith) in
      rw
        (
          search_loop_step (encode_all cs) small high (omega arith) fuel 0 high
              (omega (arith, lt_two_pow j)) (omega arith),
          odd,
        )
        (search_loop_wide j fuel (midpoint 0 high - 1) (omega arith) (omega arith) (omega arith))

  pub find_valid_utf8_len_wide :
      (j N : ℕ)
      → N + 2 ≡ 8 * 2 ^ j
      → N ≤ 4 * length cs
      → find_valid_utf8_len (encode_all cs) N ≡ ok 0
  find_valid_utf8_len_wide j N e fits =
      let s = encode_all cs in
      let size = length-encode_all cs wide in
      let whole = find_first_null-NoNull s (encode_all-NoNull cs wide) in
      find_valid_utf8_len_invalid s N N (omega arith) (not_cut cs N wide fits (omega arith))
      ∙ search_loop_wide (suc (suc j)) (suc N) N (omega (arith, two_pow j, two_pow (suc j))) fits
          (omega (arith, lt_two_pow j))

-- As many characters fit as the room has four bytes.
pub fit_wide : (room : ℕ) (cs : List ℕ) → All IsWide cs → fit room cs ≡ take (room / 4) cs
fit_wide room [] h = sym (take-nil (room / 4))
fit_wide room (c ∷ cs) (h, hs) =
    let four = length-wide c h in
    elim (dec_lt room 4) [
      | yes little ↦
          let nothing : room / 4 ≡ 0 = omega arith in
          rw (lt→leb (length (encode_utf8 c)) room (omega arith), nothing) refl
      | no enough ↦
          let left : room / 4 ≡ suc ((room - length (encode_utf8 c)) / 4) = omega arith in
          rw (le→leb (length (encode_utf8 c)) room (omega arith), left)
            (ap (λ t. c ∷ t) (fit_wide (room - length (encode_utf8 c)) cs hs))
    ]
