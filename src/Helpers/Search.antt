-- ===== src/Helpers/Search.antt =====
-- The binary search of `find_valid_utf8_len` of src/string_helpers.rs.
use fixed_str.Common.{
  ℕ, zero, suc, ◌+◌, ◌-◌, ◌/◌, ◌%◌, ◌^◌, ◌≤◌, ◌<◌, ◌≡◌, refl, min, true, false, length, take, arith,
  inl, inr, ◌⊎◌, Bool-cases, lt→ltb,
}
use native.Mathlib.Decide.{dec_lt}
use fixed_str.Error.{ok}
use fixed_str.Utf8.{Bytes, IsUtf8, is_utf8}
use fixed_str.Utf8.Run.{is_utf8_iff, is_utf8-false}
use fixed_str.Slice.{slice_to_lem, Returns, Returns-ok}
use fixed_str.Helpers.{find_first_null, search_loop, find_valid_utf8_len, usize_mod}
use fixed_str.Helpers.Null.{find_first_null-le}

-- No slice is longer than `isize::MAX` bytes.
abbrev pub IsSlice : Bytes → Type 0
IsSlice s = length s < 2 ^ 63

-- `n` ends a valid prefix, which is the whole of the `upper` bytes or is not valid with one byte more.
pub record IsCut (bytes : Bytes) (upper n : ℕ) : Type 0 where
  pub within : n ≤ upper
  pub valid : IsUtf8 (take n bytes)
  pub stuck : (n ≡ upper) ⊎ (¬ IsUtf8 (take (suc n) bytes))

-- The loop invariant over `low` and `high`.
record Inv (bytes : Bytes) (upper low high : ℕ) : Type 0 where
  ordered : low ≤ high
  inside : high ≤ upper
  valid : IsUtf8 (take low bytes)
  above : (high ≡ upper) ⊎ (¬ IsUtf8 (take (suc high) bytes))

-- The midpoint as the code computes it, and that it does not overflow.
abbrev pub midpoint : ℕ → ℕ → ℕ
midpoint low high = (low + high + 1) % usize_mod / 2

pub midpoint_exact :
    (low high : ℕ) → low < high → high < 2 ^ 63 → midpoint low high ≡ (low + high + 1) / 2
midpoint_exact low high h b = omega arith

module _ (bytes : Bytes) (small : IsSlice bytes) (upper : ℕ) (fits : upper ≤ length bytes) where
  -- One round: how the loop goes on from `low < high`.
  pub search_loop_step :
      (fuel low high : ℕ)
      → low < high
      → high ≤ upper
      → search_loop (suc fuel) bytes low high ≡ (elim (is_utf8 (take (midpoint low high) bytes)) [
        | true ↦ search_loop fuel bytes (midpoint low high) high
        | false ↦ search_loop fuel bytes low (midpoint low high - 1)
      ])
  unfolding search_loop
  search_loop_step fuel low high h k =
      rw (lt→ltb low high h, slice_to_lem (midpoint low high) bytes (omega arith))

  pub search_loop_done :
      (fuel low high : ℕ) → high ≤ low → search_loop (suc fuel) bytes low high ≡ ok low
  unfolding search_loop
  search_loop_done fuel low high h = ground arith

  search_loop-IsCut :
      (fuel low high : ℕ)
      → high < low + fuel
      → Inv bytes upper low high
      → Returns (search_loop fuel bytes low high) (IsCut bytes upper)
  search_loop-IsCut zero low high h inv = absurd (omega (arith, inv.ordered))
  search_loop-IsCut (suc fuel) low high h inv = elim (dec_lt low high) [
    | no done ↦
        let e : high ≡ low = omega (arith, inv.ordered) in
        Returns-ok _ (IsCut bytes upper) low (search_loop_done fuel low high (omega arith))
          (record {
            within = omega (arith, inv.inside);
            valid = inv.valid;
            stuck = rw e at inv.above;
          })
    | yes more ↦
        let mid = midpoint low high in
        rw (search_loop_step fuel low high more inv.inside)
          (elim (Bool-cases (is_utf8 (take mid bytes))) [
            | inl good ↦ rw good (
                search_loop-IsCut fuel mid high (omega arith) (record {
                  ordered = omega arith;
                  inside = inv.inside;
                  valid = (is_utf8_iff _).0 good;
                  above = inv.above;
                }))
            | inr bad ↦ rw bad (
                search_loop-IsCut fuel low (mid - 1) (omega arith) (record {
                  ordered = omega arith;
                  inside = omega (arith, inv.inside);
                  valid = inv.valid;
                  above = inr (not_below mid (omega arith) (is_utf8-false _ bad));
                }))
          ])
  ]
    where
      not_below : (m : ℕ) → 0 < m → ¬ IsUtf8 (take m bytes) → ¬ IsUtf8 (take (suc (m - 1)) bytes)
      not_below m pos bad = let e : suc (m - 1) ≡ m = omega arith in rw e bad

-- The search over the whole of `upper` bytes.
pub search_loop_whole :
    (bytes : Bytes) (upper : ℕ)
    → IsSlice bytes
    → upper ≤ length bytes
    → Returns (search_loop (suc upper) bytes 0 upper) (IsCut bytes upper)
search_loop_whole bytes upper small fits =
    search_loop-IsCut bytes small upper fits (suc upper) 0 upper (omega arith)
      (record { ordered = omega arith; inside = omega arith; valid = refl; above = inl refl })

pub find_valid_utf8_len-IsCut :
    (bytes : Bytes) (max_len : ℕ)
    → IsSlice bytes
    → Returns
        (find_valid_utf8_len bytes max_len)
        (IsCut bytes (min max_len (find_first_null bytes)))
unfolding find_valid_utf8_len
find_valid_utf8_len-IsCut bytes max_len small =
    let upper = min max_len (find_first_null bytes) in
    let fits : upper ≤ length bytes = omega (arith, find_first_null-le bytes) in
    rw (slice_to_lem upper bytes fits) (elim (Bool-cases (is_utf8 (take upper bytes))) [
      | inl good ↦
          rw good
            (record { within = omega arith; valid = (is_utf8_iff _).0 good; stuck = inl refl })
      | inr bad ↦ rw bad (search_loop_whole bytes upper small fits)
    ])

-- The bytes up to the limit and the first null are returned whole if they are valid.
pub find_valid_utf8_len_valid :
    (bytes : Bytes) (max_len upper : ℕ)
    → upper ≡ min max_len (find_first_null bytes)
    → IsUtf8 (take upper bytes)
    → find_valid_utf8_len bytes max_len ≡ ok upper
unfolding find_valid_utf8_len
find_valid_utf8_len_valid bytes max_len upper e h =
    rw
      (← e, slice_to_lem upper bytes (omega (arith, find_first_null-le bytes)), (is_utf8_iff _).1 h)

-- Otherwise the binary search starts.
pub find_valid_utf8_len_invalid :
    (bytes : Bytes) (max_len upper : ℕ)
    → upper ≡ min max_len (find_first_null bytes)
    → is_utf8 (take upper bytes) ≡ false
    → find_valid_utf8_len bytes max_len ≡ search_loop (suc upper) bytes 0 upper
unfolding find_valid_utf8_len
find_valid_utf8_len_invalid bytes max_len upper e h =
    rw (← e, slice_to_lem upper bytes (omega (arith, find_first_null-le bytes)), h)
