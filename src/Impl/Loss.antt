-- ===== src/Impl/Loss.antt =====
-- How much the lossy ways to make a value lose, across src/fs_core.rs and src/fs_buffer.rs.
use fixed_str.Common.{
  ℕ, ◌+◌, ◌-◌, ◌*◌, ◌^◌, ◌≤◌, ◌<◌, ◌≡◌, refl, ◌∙◌, List, length, take, All, arith,
}
use fixed_str.Error.{ok}
use fixed_str.Utf8.Chars.{encode_all}
use fixed_str.Slice.{zeros}
use fixed_str.Helpers.Copy.{pad}
use fixed_str.Helpers.Search.{IsSlice}
use fixed_str.Helpers.Rounds.{lt_two_pow}
use fixed_str.Helpers.Wide.{IsWide, length-encode_all}
use fixed_str.Core.{FixedStr, new, new_const, set_lossy}
use fixed_str.Core.Loss.{new-new_const}
use fixed_str.Buffer.{default, push_str_lossy}
use fixed_str.Impl.Agree.{after, finalized, set_lossy-new, push_str_lossy-new, default-IsBuf}

-- At a capacity of `8 * 2 ^ j - 2` bytes, of a longer string of characters of four bytes each,
-- shorter than 2^63: `new`, `set_lossy` on any value, and `push_str_lossy` to an empty builder
-- with `finalize` each make an empty value, while `new_const` keeps the first `2 * 2 ^ j - 1`
-- characters, so that the binary search can lose any number of characters that fit.
pub push_str_lossy-new_const :
    (j N : ℕ) (fs : FixedStr N) (cs : List ℕ)
    → N + 2 ≡ 8 * 2 ^ j
    → All IsWide cs
    → N ≤ 4 * length cs
    → IsSlice (encode_all cs)
    → (new N (encode_all cs) ≡ ok (record { bytes = zeros N }))
      × (after (set_lossy fs (encode_all cs)) ≡ ok (record { bytes = zeros N }))
      × (finalized (push_str_lossy (default N) (encode_all cs)) ≡ ok (record { bytes = zeros N }))
      × (new_const N (encode_all cs)
          ≡ ok (record { bytes = pad N (encode_all (take (2 * 2 ^ j - 1) cs)) }))
unfolding default
push_str_lossy-new_const j N fs cs e wide fits small =
    let (empty, whole) = new-new_const j N cs e wide fits small in
    let pos : 0 < N = omega (arith, lt_two_pow j) in
    let room : N < 2 ^ 63 = omega (arith, length-encode_all cs wide) in
    (
      empty,
      set_lossy-new fs (encode_all cs) pos small ∙ empty,
      push_str_lossy-new (default N) (default-IsBuf N room) refl pos (encode_all cs) small ∙ empty,
      whole,
    )
