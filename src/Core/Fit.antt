-- ===== src/Core/Fit.antt =====
-- `new_const` of src/fs_core.rs on the characters of a string.
use fixed_str.Common.{ℕ, ◌<◌, ◌≡◌, List, length, lt→ltb}
use fixed_str.Error.{ok}
use fixed_str.Utf8.Chars.{encode_all, AllScalar}
use fixed_str.Helpers.{panic_on_zero}
use fixed_str.Helpers.Copy.{pad}
use fixed_str.Helpers.Fit.{fit, length-fit, take-fit, find_valid_boundary-fit}
use fixed_str.Core.{new_const}
use fixed_str.Core.Const.{const_loop_whole}

-- At a capacity above 0, `new_const` of the string of a list of characters returns the characters
-- that `fit` keeps, from the front as long as the next one fits whole, padded with nulls.
pub new_const-fit :
    (N : ℕ) (cs : List ℕ)
    → 0 < N
    → AllScalar cs
    → new_const N (encode_all cs) ≡ ok (record { bytes = pad N (encode_all (fit N cs)) })
unfolding new_const panic_on_zero
new_const-fit N cs pos scalar =
    let (small, same) = take-fit N cs in
    rw (
      lt→ltb 0 N pos,
      find_valid_boundary-fit cs N scalar,
      const_loop_whole N (length (encode_all (fit N cs))) (encode_all cs) (length-fit N cs) small,
      same,
    )
