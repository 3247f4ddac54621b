-- ===== src/Core/Loss.antt =====
-- How much `new` and `new_const` of src/fs_core.rs keep of the same string.
use fixed_str.Common.{ℕ, ◌+◌, ◌-◌, ◌*◌, ◌/◌, ◌^◌, ◌≤◌, ◌≡◌, refl, List, length, take, All, arith}
use fixed_str.Error.{ok}
use fixed_str.Utf8.Chars.{encode_all}
use fixed_str.Slice.{zeros}
use fixed_str.Helpers.Copy.{pad, copy_into_buffer-truncate_at}
use fixed_str.Helpers.Search.{IsSlice}
use fixed_str.Helpers.Rounds.{lt_two_pow}
use fixed_str.Helpers.Wide.{IsWide, wide-AllScalar, find_valid_utf8_len_wide, fit_wide}
use fixed_str.Core.{new, new_const}
use fixed_str.Core.Fit.{new_const-fit}

pub new_wide :
    (j N : ℕ) (cs : List ℕ)
    → N + 2 ≡ 8 * 2 ^ j
    → All IsWide cs
    → N ≤ 4 * length cs
    → IsSlice (encode_all cs)
    → new N (encode_all cs) ≡ ok (record { bytes = zeros N })
unfolding new
new_wide j N cs e wide fits small =
    let whole : N - 0 ≡ N = omega arith in
    rw
      (copy_into_buffer-truncate_at N (encode_all cs) 0 (omega (arith, lt_two_pow j))
        (find_valid_utf8_len_wide cs wide small j N e fits) (omega arith) (omega arith))
      (rw whole refl)

-- At a capacity of `8 * 2 ^ j - 2` bytes, `new` of a longer string of characters of four bytes
-- each makes an empty value, while `new_const` keeps the first `2 * 2 ^ j - 1` characters, so that
-- the binary search can lose any number of characters that fit.
pub new-new_const :
    (j N : ℕ) (cs : List ℕ)
    → N + 2 ≡ 8 * 2 ^ j
    → All IsWide cs
    → N ≤ 4 * length cs
    → IsSlice (encode_all cs)
    → (new N (encode_all cs) ≡ ok (record { bytes = zeros N }))
      × (new_const N (encode_all cs)
          ≡ ok (record { bytes = pad N (encode_all (take (2 * 2 ^ j - 1) cs)) }))
new-new_const j N cs e wide fits small =
    let kept : N / 4 ≡ 2 * 2 ^ j - 1 = omega (arith, lt_two_pow j) in
    (
      new_wide j N cs e wide fits small,
      rw (rw kept at (fit_wide N cs wide)) at
          (new_const-fit N cs (omega (arith, lt_two_pow j)) (wide-AllScalar cs wide)),
    )
