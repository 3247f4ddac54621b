-- ===== src/Helpers/Kept.antt =====
-- How much the binary search of `find_valid_utf8_len` of src/string_helpers.rs keeps at least, and at
-- most.
use fixed_str.Common.{
  ℕ, zero, suc, ◌+◌, ◌-◌, ◌≤◌, ◌<◌, ◌≡◌, refl, min, length, take, arith, inl, inr, Bool-cases,
}
use native.Mathlib.Decide.{dec_lt}
use fixed_str.Error.{Outcome, ok, err, panic}
use fixed_str.Utf8.{Bytes, IsUtf8, is_utf8}
use fixed_str.Utf8.Run.{is_utf8_iff, is_utf8-false}
use fixed_str.Slice.{Returns, Returns-ok, Returns→ok}
use fixed_str.Helpers.{find_first_null, search_loop, find_valid_utf8_len, find_valid_boundary}
use fixed_str.Helpers.Largest.{IsLargest}
use fixed_str.Helpers.Boundary.{find_valid_boundary-IsLargest}
use fixed_str.Helpers.Null.{find_first_null-le}
use fixed_str.Helpers.Search.{
  IsSlice, IsCut, midpoint, search_loop_step, search_loop_done, find_valid_utf8_len-IsCut,
  find_valid_utf8_len_valid, find_valid_utf8_len_invalid,
}

-- Every prefix of at most `k` bytes is valid, as it is where these are ASCII.
abbrev pub IsOpen : Bytes → ℕ → Type 0
IsOpen bytes k = (j : ℕ) → j ≤ k → IsUtf8 (take j bytes)

pub Returns-both {ℓ} :
    {A : Type ℓ} (r : Outcome A) (P Q : A → Type 0)
    → Returns r P
    → Returns r Q
    → Returns r (λ a. P a × Q a)
Returns-both (ok a) P Q p q = (p, q)
Returns-both (err e) P Q p q = p
Returns-both panic P Q p q = p

module _ (bytes : Bytes) (small : IsSlice bytes) (upper : ℕ) (fits : upper ≤ length bytes) (k : ℕ)
    (open_k : IsOpen bytes k) where
  -- The end of the interval never comes before `k`: a prefix that is not valid is longer.
  search_loop_kept :
      (fuel low high : ℕ)
      → high < low + fuel
      → low ≤ high
      → k ≤ high
      → high ≤ upper
      → Returns (search_loop fuel bytes low high) (λ n. k ≤ n)
  search_loop_kept zero low high h o kh hu = absurd (omega arith)
  search_loop_kept (suc fuel) low high h o kh hu = elim (dec_lt low high) [
    | no done ↦
        Returns-ok _ (λ n. k ≤ n) low
          (search_loop_done bytes small upper fits fuel low high (omega arith)) (omega arith)
    | yes more ↦
        let mid = midpoint low high in
        rw (search_loop_step bytes small upper fits fuel low high more hu)
          (elim (Bool-cases (is_utf8 (take mid bytes))) [
            | inl good ↦ rw good (search_loop_kept fuel mid high (omega arith) (omega arith) kh hu)
            | inr bad ↦
                let beyond : k < mid = past mid (is_utf8-false _ bad) in
                rw bad (
                  search_loop_kept fuel low (mid - 1) (omega arith) (omega arith) (omega arith)
                    (omega arith))
          ])
  ]
    where
      past : (m : ℕ) → ¬ IsUtf8 (take m bytes) → k < m
      past m bad = elim (dec_lt k m) [
        | yes far ↦ far
        | no near ↦ absurd (bad (open_k m (omega arith)))
      ]

-- The search keeps such a prefix of the bytes before the first null.
pub find_valid_utf8_len-IsOpen :
    (bytes : Bytes) (max_len k : ℕ)
    → IsSlice bytes
    → k ≤ min max_len (find_first_null bytes)
    → IsOpen bytes k
    → Returns
        (find_valid_utf8_len bytes max_len)
        (λ n. (k ≤ n) × IsCut bytes (min max_len (find_first_null bytes)) n)
find_valid_utf8_len-IsOpen bytes max_len k small within open_k =
    let upper = min max_len (find_first_null bytes) in
    let fits : upper ≤ length bytes = omega (arith, find_first_null-le bytes) in
    Returns-both _ (λ n. k ≤ n) (IsCut bytes upper)
      (elim (Bool-cases (is_utf8 (take upper bytes))) [
        | inl good ↦
            Returns-ok _ (λ n. k ≤ n) upper
              (find_valid_utf8_len_valid bytes max_len upper refl ((is_utf8_iff _).0 good)) within
        | inr bad ↦ rw (find_valid_utf8_len_invalid bytes max_len upper refl bad) (
            search_loop_kept bytes small upper fits k open_k (suc upper) 0 upper (omega arith)
              (omega arith) within (omega arith))
      ])
      (find_valid_utf8_len-IsCut bytes max_len small)

-- What the two ways of cutting the same string at `max_len` keep: `n` bytes by the binary search
-- and `m` by the linear scan.
pub record IsBetween (bytes : Bytes) (max_len k : ℕ) : Type 0 where
  pub n : ℕ
  pub m : ℕ
  pub search : find_valid_utf8_len bytes max_len ≡ ok n
  pub scan : find_valid_boundary bytes max_len ≡ ok m
  pub least : k ≤ n
  pub most : n ≤ m

-- On a valid string shorter than 2^63 of which every prefix of at most `k` bytes is valid (as
-- where these are ASCII), for `k` within `max_len` and the first null, both `find_valid_utf8_len`
-- and `find_valid_boundary` return: the binary search keeps at least `k` bytes, and never more
-- than the linear scan.
pub find_valid_utf8_len-find_valid_boundary :
    (bytes : Bytes) (max_len k : ℕ)
    → IsSlice bytes
    → IsUtf8 bytes
    → k ≤ min max_len (find_first_null bytes)
    → IsOpen bytes k
    → IsBetween bytes max_len k
find_valid_utf8_len-find_valid_boundary bytes max_len k small valid within open_k =
    let (n, en, (kept, cut)) =
      Returns→ok _ (λ n. (k ≤ n) × IsCut bytes _ n)
        (find_valid_utf8_len-IsOpen bytes max_len k small within open_k) in
    let (m, em, best) =
      Returns→ok _ (IsLargest bytes _) (find_valid_boundary-IsLargest bytes max_len valid) in
    record {
      n = n;
      m = m;
      search = en;
      scan = em;
      least = kept;
      most = best.largest n (omega (arith, cut.within, find_first_null-le bytes)) cut.valid;
    }
