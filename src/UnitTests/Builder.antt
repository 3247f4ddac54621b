-- ===== src/UnitTests/Builder.antt =====
-- The tests of src/fs_buffer.rs about pushes and conversions.
use fixed_str.Common.{refl, ◌∷◌, ◌++◌, ◌==◌, if◌then◌else◌}
use fixed_str.Common.{true, false}
use fixed_str.Error.{◌>>=◌, ◌>>◌, unwrap}
use fixed_str.Utf8.{encode_utf8, is_utf8, step, lead}
use fixed_str.Slice.{slice_to, index, copy_from_slice, fill_zero}
use fixed_str.Helpers.{
  truncate_utf8_lossy, copy_into_buffer, copied_len, panic_on_zero, find_valid_utf8_len,
  find_first_null,
}
use fixed_str.EffectiveBytes.{effective_bytes}
use fixed_str.Core
use fixed_str.Core.{as_str, as_bytes, from_bytes}
use fixed_str.Buffer.{
  new, append, remaining, try_push_str, try_push_char, push_str_lossy, finalize, from_fixed,
  try_from,
}
use fixed_str.Hex.{codes}
use fixed_str.Impl.{bytes_eq, bytes_cmp, buf_content, buf_cmp, buf_partial_cmp, buf_derived_eq}
use fixed_str.UnitTests.{Test, Passes, assert, assert_ok, assert_err, done_by, is_less}

abbrev test_try_push_str_success : Test
test_try_push_str_success = do
  buf ← new 10
  let pushed = try_push_str buf (codes "Hello")
  assert_ok pushed.1
  assert (pushed.0.len == 5)

test_try_push_str_success-Passes : Passes test_try_push_str_success
unfolding new panic_on_zero try_push_str remaining append effective_bytes find_first_null
    copy_from_slice
test_try_push_str_success-Passes = refl

abbrev test_try_push_str_fail : Test
test_try_push_str_fail = do
  buf ← new 5
  let pushed = try_push_str buf (codes "Hello, world!")
  assert_err pushed.1
  assert (pushed.0.len == 0)

test_try_push_str_fail-Passes : Passes test_try_push_str_fail
unfolding new panic_on_zero try_push_str remaining effective_bytes find_first_null
test_try_push_str_fail-Passes = refl

abbrev test_try_push_char_success : Test
test_try_push_char_success = do
  buf ← new 5
  let pushed = try_push_char buf b'A'
  assert_ok pushed.1
  assert (pushed.0.len == 1)

test_try_push_char_success-Passes : Passes test_try_push_char_success
unfolding new panic_on_zero try_push_char encode_utf8 try_push_str remaining append effective_bytes
    find_first_null copy_from_slice
test_try_push_char_success-Passes = refl

abbrev test_push_str_lossy : Test
test_push_str_lossy = do
  buf ← new 5
  let first = push_str_lossy buf (codes "Hello")
  whole ← first.1
  assert whole
  let second = push_str_lossy first.0 (codes ", world!")
  result ← second.1
  assert (if result then false else true)
  fixed ← finalize second.0
  s ← as_str fixed
  assert (bytes_eq s (codes "Hello"))

test_push_str_lossy-Passes : Passes test_push_str_lossy
unfolding new panic_on_zero push_str_lossy remaining append truncate_utf8_lossy find_valid_utf8_len
    find_first_null slice_to is_utf8 step lead copy_from_slice finalize from_bytes fill_zero
    copy_into_buffer copied_len as_str bytes_eq
test_push_str_lossy-Passes = refl

abbrev test_finalize_trailing_zeros : Test
test_finalize_trailing_zeros = do
  buf ← new 10
  buf' ← done_by (try_push_str buf (codes "Hi"))
  fixed ← finalize buf'
  assert (Core.len fixed == 2)
  s ← as_str fixed
  assert (bytes_eq s (codes "Hi"))
  third ← index (as_bytes fixed) 2
  assert (third == 0)

test_finalize_trailing_zeros-Passes : Passes test_finalize_trailing_zeros
unfolding new panic_on_zero try_push_str remaining append effective_bytes find_first_null
    copy_from_slice finalize from_bytes fill_zero copy_into_buffer copied_len find_valid_utf8_len
    slice_to is_utf8 step lead truncate_utf8_lossy as_str as_bytes index bytes_eq Core.len
test_finalize_trailing_zeros-Passes = refl

abbrev test_fixed_str_buf_try_from_slice : Test
test_fixed_str_buf_try_from_slice = assert_err (try_from 5 (codes "Hello!"))

test_fixed_str_buf_try_from_slice-Passes : Passes test_fixed_str_buf_try_from_slice
unfolding try_from copy_into_buffer copied_len panic_on_zero
test_fixed_str_buf_try_from_slice-Passes = refl

abbrev test_fixed_str_buf_ordering : Test
test_fixed_str_buf_ordering = do
  empty1 ← new 10
  empty2 ← new 10
  buf1 ← done_by (try_push_str empty1 (codes "Apple"))
  buf2 ← done_by (try_push_str empty2 (codes "Banana"))
  assert (is_less (buf_partial_cmp buf1 buf2))
  empty3 ← new 10
  buf3 ← done_by (try_push_str empty3 (codes "Apple"))
  assert (buf_derived_eq buf1 buf3)

test_fixed_str_buf_ordering-Passes : Passes test_fixed_str_buf_ordering
unfolding new panic_on_zero try_push_str remaining append effective_bytes find_first_null
    copy_from_slice buf_partial_cmp buf_cmp bytes_cmp buf_derived_eq bytes_eq
test_fixed_str_buf_ordering-Passes = refl

abbrev test_from_fixedstr_effective_length : Test
test_from_fixedstr_effective_length = do
  fixed ← Core.new 10 (codes "Hello")
  let buf = from_fixed fixed
  assert (buf.len == 5)
  assert (bytes_eq (buf_content buf) (codes "Hello"))

test_from_fixedstr_effective_length-Passes : Passes test_from_fixedstr_effective_length
unfolding Core.new copy_into_buffer copied_len panic_on_zero find_valid_utf8_len effective_bytes
    find_first_null slice_to is_utf8 step lead copy_from_slice from_fixed Core.len bytes_eq
test_from_fixedstr_effective_length-Passes = refl

abbrev test_try_from_slice_effective_length : Test
test_try_from_slice_effective_length = do
  buf ← unwrap (try_from 11 (codes "Hello" ++ (0 ∷ codes "World")))
  assert (buf.len == 5)
  assert (bytes_eq (buf_content buf) (codes "Hello"))

test_try_from_slice_effective_length-Passes : Passes test_try_from_slice_effective_length
unfolding try_from copy_into_buffer copied_len panic_on_zero slice_to copy_from_slice
    effective_bytes find_first_null bytes_eq
test_try_from_slice_effective_length-Passes = refl
