-- ===== src/UnitTests/Integration.antt =====
-- tests/fx_tests.rs: the constructors, the conversions and the comparisons.
use fixed_str.Common.{suc, refl, [], ◌∷◌, ◌++◌, ◌==◌}
use fixed_str.Error.{◌>>=◌, ◌>>◌, unwrap}
use fixed_str.Utf8.{Bytes, encode_utf8, from_utf8, is_utf8, step, lead}
use fixed_str.Slice.{slice_to, index, write, copy_from_slice, zeros}
use fixed_str.Helpers.{
  truncate_utf8_lossy, copy_into_buffer, copied_len, panic_on_zero, find_valid_utf8_len,
  search_loop, find_first_null, find_valid_boundary, boundary_loop, next_boundary,
  skip_continuation, lead_width,
}
use fixed_str.EffectiveBytes.{effective_bytes, next}
use fixed_str.Core.{
  new, new_const, const_loop, from_slice, from_slice_unsafe, from_bytes, len, is_valid, as_str,
  try_as_str, as_bytes,
}
use fixed_str.Impl.{bytes_eq, default, try_from, eq_str, str_eq, into_iter}
use fixed_str.Impl.Convert.{collect}
use fixed_str.Hex.{codes}
use fixed_str.Show.{display}
use fixed_str.UnitTests.{Test, Passes, Panics, assert, assert_ok, assert_str}

-- `"a😊b"`
abbrev between : Bytes
between = codes "a" ++ (encode_utf8 0x1f60a ++ codes "b")

abbrev test_new_exact : Test
test_new_exact = do
  fixed ← new 5 (codes "Hello")
  assert (len fixed == 5)
  assert_str fixed (codes "Hello")

test_new_exact-Passes : Passes test_new_exact
unfolding new copy_into_buffer copied_len panic_on_zero find_valid_utf8_len find_first_null slice_to
    is_utf8 step lead copy_from_slice len truncate_utf8_lossy as_str bytes_eq
test_new_exact-Passes = refl

abbrev test_new_shorter : Test
test_new_shorter = do
  fixed ← new 10 (codes "Hi")
  assert (len fixed == 2)
  assert_str fixed (codes "Hi")
  expected ← copy_from_slice (zeros 10) 0 2 (codes "Hi")
  assert (bytes_eq (as_bytes fixed) expected)

test_new_shorter-Passes : Passes test_new_shorter
unfolding new copy_into_buffer copied_len panic_on_zero find_valid_utf8_len find_first_null slice_to
    is_utf8 step lead copy_from_slice len as_bytes truncate_utf8_lossy as_str bytes_eq
test_new_shorter-Passes = refl

abbrev test_new_truncation : Test
test_new_truncation = do fixed ← new 4 between; assert_str fixed (codes "a")

test_new_truncation-Passes : Passes test_new_truncation
unfolding new copy_into_buffer copied_len panic_on_zero find_valid_utf8_len find_first_null slice_to
    is_utf8 step lead copy_from_slice encode_utf8 search_loop truncate_utf8_lossy as_str bytes_eq
test_new_truncation-Passes = refl

abbrev test_from_slice_truncate_invalid_utf8 : Test
test_from_slice_truncate_invalid_utf8 = do
  fixed ← from_slice 4 between
  assert_str fixed (codes "a")

test_from_slice_truncate_invalid_utf8-Passes : Passes test_from_slice_truncate_invalid_utf8
unfolding from_slice copy_into_buffer copied_len panic_on_zero find_valid_utf8_len find_first_null
    slice_to is_utf8 step lead copy_from_slice encode_utf8 search_loop truncate_utf8_lossy as_str
    bytes_eq
test_from_slice_truncate_invalid_utf8-Passes = refl

abbrev test_new_const_valid : Test
test_new_const_valid = do fixed ← new_const 5 (codes "Hello"); assert_str fixed (codes "Hello")

test_new_const_valid-Passes : Passes test_new_const_valid
unfolding new_const panic_on_zero find_valid_boundary boundary_loop next_boundary skip_continuation
    lead_width index const_loop write find_valid_utf8_len find_first_null slice_to is_utf8 step lead
    truncate_utf8_lossy as_str bytes_eq
test_new_const_valid-Passes = refl

abbrev test_new_const_invalid_utf8 : Test
test_new_const_invalid_utf8 = do
  fixed ← new_const 1 (encode_utf8 0xe9)
  assert_ok (try_as_str fixed)

test_new_const_invalid_utf8-Passes : Passes test_new_const_invalid_utf8
unfolding new_const panic_on_zero find_valid_boundary boundary_loop next_boundary skip_continuation
    lead_width index const_loop write encode_utf8 try_as_str from_utf8 effective_bytes
    find_first_null is_utf8 step lead
test_new_const_invalid_utf8-Passes = refl

abbrev test_from_slice : Test
test_from_slice = do
  fixed ← from_slice_unsafe 5 (codes "Hello, world!")
  assert_str fixed (codes "Hello")

test_from_slice-Passes : Passes test_from_slice
unfolding from_slice_unsafe copy_into_buffer copied_len panic_on_zero find_valid_utf8_len
    find_first_null slice_to is_utf8 step lead copy_from_slice truncate_utf8_lossy as_str bytes_eq
test_from_slice-Passes = refl

abbrev test_try_from_slice_valid : Test
test_try_from_slice_valid = do
  fixed ← unwrap (try_from 5 (codes "Hello"))
  assert_str fixed (codes "Hello")

test_try_from_slice_valid-Passes : Passes test_try_from_slice_valid
unfolding try_from is_valid try_as_str from_utf8 effective_bytes copy_into_buffer copied_len
    panic_on_zero find_valid_utf8_len find_first_null slice_to is_utf8 step lead copy_from_slice
    truncate_utf8_lossy as_str bytes_eq
test_try_from_slice_valid-Passes = refl

abbrev test_try_from_slice_overflow : Test
test_try_from_slice_overflow = do
  fixed ← unwrap (try_from 5 (codes "Hello!"))
  assert_str fixed (codes "Hello")

test_try_from_slice_overflow-Panics : Panics test_try_from_slice_overflow
unfolding try_from effective_bytes copy_into_buffer copied_len panic_on_zero find_valid_utf8_len
    find_first_null slice_to is_utf8 step lead copy_from_slice
test_try_from_slice_overflow-Panics = refl

abbrev test_from_bytes_valid : Test
test_from_bytes_valid = do
  fixed ← from_bytes 5 (codes "Hi" ++ zeros 3)
  assert_str fixed (codes "Hi")

test_from_bytes_valid-Passes : Passes test_from_bytes_valid
unfolding from_bytes copy_into_buffer copied_len panic_on_zero find_valid_utf8_len find_first_null
    slice_to is_utf8 step lead copy_from_slice truncate_utf8_lossy as_str bytes_eq
test_from_bytes_valid-Passes = refl

abbrev test_from_bytes_invalid_utf8 : Test
test_from_bytes_invalid_utf8 = do
  fixed ← from_bytes 5 (0xff ∷ 0xff ∷ zeros 3)
  assert_ok (try_as_str fixed)

test_from_bytes_invalid_utf8-Passes : Passes test_from_bytes_invalid_utf8
unfolding from_bytes copy_into_buffer copied_len panic_on_zero find_valid_utf8_len find_first_null
    slice_to is_utf8 step lead copy_from_slice search_loop try_as_str from_utf8 effective_bytes
test_from_bytes_invalid_utf8-Passes = refl

abbrev test_default : Test
test_default = do let fixed = default 5; assert (len fixed == 0); assert_str fixed []

test_default-Passes : Passes test_default
unfolding default len find_valid_utf8_len find_first_null slice_to is_utf8 truncate_utf8_lossy
    as_str bytes_eq
test_default-Passes = refl

abbrev test_display : Test
test_display = do
  fixed ← new 5 (codes "Hello")
  display_str ← display fixed
  assert (bytes_eq display_str (codes "Hello"))

test_display-Passes : Passes test_display
unfolding new copy_into_buffer copied_len panic_on_zero find_valid_utf8_len find_first_null slice_to
    is_utf8 step lead copy_from_slice display truncate_utf8_lossy as_str bytes_eq
test_display-Passes = refl

abbrev test_into_iter : Test
test_into_iter = do
  fixed ← new 5 (codes "Hello")
  collected ← collect (suc (len fixed)) (into_iter fixed)
  assert (bytes_eq collected (codes "Hello"))

test_into_iter-Passes : Passes test_into_iter
unfolding new copy_into_buffer copied_len panic_on_zero find_valid_utf8_len find_first_null slice_to
    is_utf8 step lead copy_from_slice len into_iter collect next index bytes_eq
test_into_iter-Passes = refl

abbrev test_equality : Test
test_equality = do
  fixed ← new 5 (codes "Hello")
  assert (eq_str fixed (codes "Hello"))
  assert (str_eq (codes "Hello") fixed)

test_equality-Passes : Passes test_equality
unfolding new copy_into_buffer copied_len panic_on_zero find_valid_utf8_len find_first_null slice_to
    is_utf8 step lead copy_from_slice eq_str str_eq effective_bytes bytes_eq
test_equality-Passes = refl

abbrev test_truncation_exact_boundary : Test
test_truncation_exact_boundary = do
  fixed ← new 5 (codes "ab" ++ encode_utf8 0x1f60a)
  assert_str fixed (codes "ab")

test_truncation_exact_boundary-Passes : Passes test_truncation_exact_boundary
unfolding new copy_into_buffer copied_len panic_on_zero find_valid_utf8_len find_first_null slice_to
    is_utf8 step lead copy_from_slice encode_utf8 search_loop truncate_utf8_lossy as_str bytes_eq
test_truncation_exact_boundary-Passes = refl
