-- ===== src/UnitTests/BuilderCut.antt =====
-- The tests of src/fs_buffer.rs about `clear`, `truncate` and the iterator.
use fixed_str.Common.{refl, ◌==◌, replicate}
use fixed_str.Error.{◌>>=◌, ◌>>◌}
use fixed_str.Utf8.{is_utf8, step, lead}
use fixed_str.Slice.{slice_to, write, copy_from_slice, fill_zero}
use fixed_str.Helpers.{
  truncate_utf8_lossy, copy_into_buffer, copied_len, panic_on_zero, find_valid_utf8_len,
  find_first_null,
}
use fixed_str.EffectiveBytes.{effective_bytes}
use fixed_str.Core.{as_str, from_bytes}
use fixed_str.Buffer.{
  new, append, remaining, try_push_str, finalize, clear, truncate, zero_loop, into_iter,
}
use fixed_str.Hex.{codes}
use fixed_str.Impl.{bytes_eq, buf_eq_array, buf_as_ref, buf_deref}
use fixed_str.UnitTests.{Test, Passes, assert, all_zero, done_by, slice_from}

abbrev test_fixed_str_buf_clear : Test
test_fixed_str_buf_clear = do
  empty ← new 10
  buf ← done_by (try_push_str empty (codes "Hello"))
  assert (buf.len == 5)
  let cleared = clear buf
  assert (cleared.len == 0)
  assert (buf_eq_array cleared (replicate 10 0))
  reused ← done_by (try_push_str cleared (codes "Rust"))
  assert (reused.len == 4)
  front ← slice_to 4 (buf_deref reused)
  assert (bytes_eq front (codes "Rust"))

test_fixed_str_buf_clear-Passes : Passes test_fixed_str_buf_clear
unfolding new panic_on_zero try_push_str remaining append effective_bytes find_first_null
    copy_from_slice clear buf_eq_array buf_deref slice_to bytes_eq
test_fixed_str_buf_clear-Passes = refl

abbrev test_truncate_reduces_length : Test
test_truncate_reduces_length = do
  empty ← new 10
  buf ← done_by (try_push_str empty (codes "HelloWorld"))
  assert (buf.len == 10)
  cut ← done_by (truncate buf 5)
  assert (cut.len == 5)
  fixed ← finalize cut
  s ← as_str fixed
  assert (bytes_eq s (codes "Hello"))
  rest ← slice_from 5 (buf_as_ref cut)
  all_zero rest

test_truncate_reduces_length-Passes : Passes test_truncate_reduces_length
unfolding new panic_on_zero try_push_str remaining append effective_bytes find_first_null
    copy_from_slice truncate zero_loop write finalize from_bytes fill_zero copy_into_buffer
    copied_len find_valid_utf8_len slice_to is_utf8 step lead truncate_utf8_lossy as_str bytes_eq
    buf_as_ref
test_truncate_reduces_length-Passes = refl

abbrev test_truncate_no_effect_when_new_len_is_greater : Test
test_truncate_no_effect_when_new_len_is_greater = do
  empty ← new 10
  buf ← done_by (try_push_str empty (codes "Hi"))
  assert (buf.len == 2)
  same ← done_by (truncate buf 5)
  assert (same.len == 2)

test_truncate_no_effect_when_new_len_is_greater-Passes :
    Passes test_truncate_no_effect_when_new_len_is_greater
unfolding new panic_on_zero try_push_str remaining append effective_bytes find_first_null
    copy_from_slice truncate
test_truncate_no_effect_when_new_len_is_greater-Passes = refl

abbrev test_fixed_str_buf_into_iter : Test
test_fixed_str_buf_into_iter = do
  empty ← new 5
  buf ← done_by (try_push_str empty (codes "Hey"))
  let bytes = into_iter buf
  front ← slice_to 3 bytes
  assert (bytes_eq front (codes "Hey"))
  back ← slice_from 3 bytes
  assert (bytes_eq back (replicate 2 0))

test_fixed_str_buf_into_iter-Passes : Passes test_fixed_str_buf_into_iter
unfolding new panic_on_zero try_push_str remaining append effective_bytes find_first_null
    copy_from_slice into_iter slice_to bytes_eq
test_fixed_str_buf_into_iter-Passes = refl
