-- ===== src/Helpers/Rounds.antt =====
-- How many rounds the binary search of `find_valid_utf8_len` of src/string_helpers.rs takes.
use fixed_str.Common.{
  ℕ, zero, suc, ◌+◌, ◌-◌, ◌*◌, ◌^◌, ◌≤◌, ◌<◌, ◌≡◌, length, take, arith, sym, ◌∙◌, inl, inr,
  Bool-cases, min, if◌then◌else◌,
}
use native.Mathlib.Decide.{dec_lt}
use fixed_str.Error.{ok}
use fixed_str.Utf8.{Bytes, is_utf8}
use fixed_str.Utf8.Run.{is_utf8_iff}
use fixed_str.Slice.{Returns}
use fixed_str.Helpers.{search_loop, find_valid_utf8_len, find_first_null}
use fixed_str.Helpers.Null.{find_first_null-le}
use fixed_str.Helpers.Search.{
  IsSlice, midpoint, search_loop_step, search_loop_done, IsCut, find_valid_utf8_len-IsCut,
  find_valid_utf8_len_valid, find_valid_utf8_len_invalid,
}

pub two_pow : (r : ℕ) → 2 ^ suc r ≡ 2 * 2 ^ r
two_pow r = omega arith

pub lt_two_pow : (n : ℕ) → n < 2 ^ n
lt_two_pow zero = omega arith
lt_two_pow (suc n) = omega (arith, two_pow n, lt_two_pow n)

module _ (bytes : Bytes) (small : IsSlice bytes) (upper : ℕ) (fits : upper ≤ length bytes) where
  -- `r` rounds are enough for fewer than `2 ^ r` candidates, whatever fuel is left.
  search_loop_rounds :
      (r fuel low high : ℕ)
      → high < low + 2 ^ r
      → high ≤ upper
      → r < fuel
      → search_loop fuel bytes low high ≡ search_loop (suc r) bytes low high
  search_loop_rounds r zero low high gap k more = absurd (omega arith)
  search_loop_rounds zero (suc fuel) low high gap k more =
      search_loop_done bytes small upper fits fuel low high (omega arith)
      ∙ sym (search_loop_done bytes small upper fits 0 low high (omega arith))
  search_loop_rounds (suc r) (suc fuel) low high gap k more = elim (dec_lt low high) [
    | no done ↦
        search_loop_done bytes small upper fits fuel low high (omega arith)
        ∙ sym (search_loop_done bytes small upper fits (suc r) low high (omega arith))
    | yes inside ↦
        let mid = midpoint low high in
        let half = two_pow r in
        rw
          (
            search_loop_step bytes small upper fits fuel low high inside k,
            search_loop_step bytes small upper fits (suc r) low high inside k,
          )
          (elim (Bool-cases (is_utf8 (take mid bytes))) [
            | inl good ↦ rw good (search_loop_rounds r fuel mid high (omega arith) k (omega arith))
            | inr bad ↦
                rw bad (
                  search_loop_rounds r fuel low (mid - 1) (omega arith) (omega arith) (omega arith))
          ])
  ]

-- For a slice shorter than 2^63, where `upper` is the least of `max_len` and the index of the
-- first null and is below `2 ^ r`, `find_valid_utf8_len` tests the first `upper` bytes and
-- otherwise ends the search within `r` rounds, without a panic. Its index ends a valid prefix of
-- these bytes, which is all of them or is not valid with one byte more.
pub find_valid_utf8_len-rounds :
    (bytes : Bytes) (max_len upper r : ℕ)
    → IsSlice bytes
    → upper ≡ min max_len (find_first_null bytes)
    → upper < 2 ^ r
    → (find_valid_utf8_len bytes max_len
        ≡ (if is_utf8 (take upper bytes) then ok upper else search_loop (suc r) bytes 0 upper))
      × Returns (find_valid_utf8_len bytes max_len) (IsCut bytes upper)
find_valid_utf8_len-rounds bytes max_len upper r small e few =
    let fits : upper ≤ length bytes = omega (arith, find_first_null-le bytes) in
    let same : search_loop (suc upper) bytes 0 upper ≡ search_loop (suc r) bytes 0 upper =
      either_fuel fits in
    (
      elim (Bool-cases (is_utf8 (take upper bytes))) [
        | inl good ↦
            rw good (find_valid_utf8_len_valid bytes max_len upper e ((is_utf8_iff _).0 good))
        | inr bad ↦ rw bad (find_valid_utf8_len_invalid bytes max_len upper e bad ∙ same)
      ],
      rw e (find_valid_utf8_len-IsCut bytes max_len small),
    )
  where
    either_fuel :
        upper ≤ length bytes
        → search_loop (suc upper) bytes 0 upper ≡ search_loop (suc r) bytes 0 upper
    either_fuel fits = elim (dec_lt r (suc upper)) [
      | yes long ↦
          search_loop_rounds bytes small upper fits r (suc upper) 0 upper (omega arith)
            (omega arith) long
      | no short ↦ sym (
          search_loop_rounds bytes small upper fits upper (suc r) 0 upper
            (omega (arith, lt_two_pow upper)) (omega arith) (omega arith))
    ]
