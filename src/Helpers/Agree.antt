-- ===== src/Helpers/Agree.antt =====
-- What `find_valid_utf8_len` of src/string_helpers.rs looks at: the bytes up to the limit and the
-- first null.
use fixed_str.Common.{
  ℕ, zero, suc, ◌-◌, ◌≤◌, ◌≡◌, refl, min, length, take, arith, inl, inr, ◌∙◌, sym, ap, ◌++◌,
  Bool-cases, take-take, take-append_le,
}
use native.Mathlib.Decide.{dec_lt}
use fixed_str.Utf8.{Bytes, is_utf8}
use fixed_str.Utf8.Run.{is_utf8_iff}
use fixed_str.Slice.{zeros}
use fixed_str.Helpers.{find_first_null, search_loop, find_valid_utf8_len}
use fixed_str.Helpers.Null.{find_first_null-le, find_first_null-NoNull, find_first_null-pad}
use fixed_str.Helpers.Search.{
  IsSlice, midpoint, search_loop_step, search_loop_done, find_valid_utf8_len_valid,
  find_valid_utf8_len_invalid,
}
use fixed_str.EffectiveBytes.{effective_bytes}
use fixed_str.EffectiveBytes.Content.{
  effective_bytes-NoNull, length-effective_bytes, take-effective_bytes,
}

module _ (s t : Bytes) (small_s : IsSlice s) (small_t : IsSlice t) (upper : ℕ)
    (fits_s : upper ≤ length s) (fits_t : upper ≤ length t)
    (same : take upper s ≡ take upper t) where
  same_part : (m : ℕ) → m ≤ upper → take m s ≡ take m t
  same_part m h = sym (take-take m upper s h) ∙ ap (take m) same ∙ take-take m upper t h

  search_loop_agree :
      (fuel low high : ℕ) → high ≤ upper → search_loop fuel s low high ≡ search_loop fuel t low high
  unfolding search_loop
  search_loop_agree zero low high h = refl
  search_loop_agree (suc fuel) low high h = elim (dec_lt low high) [
    | no done ↦
        search_loop_done s small_s upper fits_s fuel low high (omega arith)
        ∙ sym (search_loop_done t small_t upper fits_t fuel low high (omega arith))
    | yes more ↦
        let mid = midpoint low high in
        search_loop_step s small_s upper fits_s fuel low high more h
        ∙ rw (same_part mid (omega arith)) (elim (Bool-cases (is_utf8 (take mid t))) [
          | inl good ↦ rw good (search_loop_agree fuel mid high h)
          | inr bad ↦ rw bad (search_loop_agree fuel low (mid - 1) (omega arith))
        ])
        ∙ sym (search_loop_step t small_t upper fits_t fuel low high more h)
  ]

pub find_valid_utf8_len_agree :
    (s t : Bytes) (max_len upper : ℕ)
    → IsSlice s
    → IsSlice t
    → upper ≡ min max_len (find_first_null s)
    → upper ≡ min max_len (find_first_null t)
    → take upper s ≡ take upper t
    → find_valid_utf8_len s max_len ≡ find_valid_utf8_len t max_len
find_valid_utf8_len_agree s t max_len upper small_s small_t es et same =
    elim (Bool-cases (is_utf8 (take upper t))) [
      | inl good ↦
          let valid = (is_utf8_iff (take upper t)).0 good in
          find_valid_utf8_len_valid s max_len upper es (rw same valid)
          ∙ sym (find_valid_utf8_len_valid t max_len upper et valid)
      | inr bad ↦
          find_valid_utf8_len_invalid s max_len upper es (rw same bad)
          ∙ search_loop_agree s t small_s small_t upper (omega (arith, es, find_first_null-le s))
              (omega (arith, et, find_first_null-le t)) same (suc upper) 0 upper (omega arith)
          ∙ sym (find_valid_utf8_len_invalid t max_len upper et bad)
    ]

pub find_valid_utf8_len-effective_bytes :
    (s : Bytes) (max_len : ℕ)
    → IsSlice s
    → find_valid_utf8_len (effective_bytes s) max_len ≡ find_valid_utf8_len s max_len
find_valid_utf8_len-effective_bytes s max_len small =
    let e = effective_bytes s in
    let size = length-effective_bytes s in
    let whole = find_first_null-NoNull e (effective_bytes-NoNull s) in
    find_valid_utf8_len_agree e s max_len (min max_len (find_first_null s))
      (omega (arith, size, find_first_null-le s)) small (omega (arith, size, whole)) refl
      (take-effective_bytes (min max_len (find_first_null s)) s (omega arith))

pub find_valid_utf8_len-append_zeros :
    (s : Bytes) (k max_len : ℕ)
    → IsSlice s
    → IsSlice (s ++ zeros k)
    → find_valid_utf8_len (s ++ zeros k) max_len ≡ find_valid_utf8_len s max_len
find_valid_utf8_len-append_zeros s k max_len small small_k =
    let upper = min max_len (find_first_null s) in
    find_valid_utf8_len_agree (s ++ zeros k) s max_len upper small_k small
      (omega (arith, find_first_null-pad s k)) refl
      (take-append_le s (zeros k) upper (omega (arith, find_first_null-le s)))
