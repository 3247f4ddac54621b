-- ===== src/UnitTests/IntegrationMore.antt =====
-- tests/fx_tests.rs: the modifiers, the accessors and `Debug`.
use fixed_str.Common.{refl, [], ◌∷◌, ◌++◌, ◌==◌, ◌≡◌}
use fixed_str.Error.{◌>>=◌, ◌>>◌, unwrap}
use fixed_str.Utf8.{Bytes, from_utf8, is_utf8, step, lead}
use fixed_str.Slice.{slice_to, write, copy_from_slice, fill_zero, zeros}
use fixed_str.Helpers.{
  truncate_utf8_lossy, copy_into_buffer, copied_len, panic_on_zero, find_valid_utf8_len,
  search_loop, find_first_null,
}
use fixed_str.EffectiveBytes.{effective_bytes}
use fixed_str.Core.{
  FixedStr, new, from_slice_unsafe, from_bytes, from_bytes_unsafe, set, set_lossy, clear, truncate,
  capacity, len, is_valid, as_str, try_as_str, as_bytes, byte_iter, write_byte, into_string,
  try_into_string,
}
use fixed_str.Impl.{bytes_eq}
use fixed_str.Hex.{codes}
use fixed_str.Show.{display, debug}
use fixed_str.UnitTests.{Test, Passes, assert, assert_str, all_zero, done_by, slice_from}

abbrev test_zero_termination : Test
test_zero_termination = do
  fixed ← from_slice_unsafe 11 (codes "Hello" ++ (0 ∷ codes "World"))
  assert (len fixed == 5)
  assert_str fixed (codes "Hello")

test_zero_termination-Passes : Passes test_zero_termination
unfolding from_slice_unsafe len copy_into_buffer copied_len panic_on_zero find_valid_utf8_len
    find_first_null slice_to is_utf8 step lead copy_from_slice truncate_utf8_lossy as_str bytes_eq
test_zero_termination-Passes = refl

abbrev test_clear_zeroes_data : Test
test_clear_zeroes_data = do
  fixed ← new 5 (codes "abc")
  let cleared = clear fixed
  assert (bytes_eq (as_bytes cleared) (0 ∷ 0 ∷ 0 ∷ 0 ∷ 0 ∷ []))

test_clear_zeroes_data-Passes : Passes test_clear_zeroes_data
unfolding new copy_into_buffer copied_len panic_on_zero find_valid_utf8_len find_first_null slice_to
    is_utf8 step lead copy_from_slice clear as_bytes bytes_eq
test_clear_zeroes_data-Passes = refl

abbrev test_capacity : Test
test_capacity = do fixed ← new 8 (codes "abc"); assert (capacity fixed == 8)

test_capacity-Passes : Passes test_capacity
unfolding new copy_into_buffer copied_len panic_on_zero find_valid_utf8_len find_first_null slice_to
    is_utf8 step lead copy_from_slice capacity
test_capacity-Passes = refl

abbrev test_from_bytes_unsafe : Test
test_from_bytes_unsafe = do
  fixed ← from_bytes_unsafe 6 (codes "Raw!" ++ zeros 2)
  assert_str fixed (codes "Raw!")

test_from_bytes_unsafe-Passes : Passes test_from_bytes_unsafe
unfolding from_bytes_unsafe copy_into_buffer copied_len panic_on_zero find_valid_utf8_len
    find_first_null slice_to is_utf8 step lead copy_from_slice truncate_utf8_lossy as_str bytes_eq
test_from_bytes_unsafe-Passes = refl

abbrev test_set_and_set_lossy : Test
test_set_and_set_lossy = do
  fixed ← new 5 (codes "abc")
  fixed' ← done_by (set fixed (codes "xy"))
  assert_str fixed' (codes "xy")
  fixed'' ← done_by (set_lossy fixed' (codes "hello world"))
  assert_str fixed'' (codes "hello")

test_set_and_set_lossy-Passes : Passes test_set_and_set_lossy
unfolding new copy_into_buffer copied_len panic_on_zero find_valid_utf8_len find_first_null slice_to
    is_utf8 step lead copy_from_slice set set_lossy effective_bytes truncate_utf8_lossy as_str
    bytes_eq
test_set_and_set_lossy-Passes = refl

abbrev test_is_valid : Test
test_is_valid = do
  valid ← new 5 (codes "abc")
  assert (is_valid valid)
  valid' ← from_bytes 5 (0xff ∷ 0xff ∷ zeros 3)
  assert (is_valid valid')

test_is_valid-Passes : Passes test_is_valid
unfolding new copy_into_buffer copied_len panic_on_zero find_valid_utf8_len find_first_null slice_to
    is_utf8 step lead copy_from_slice from_bytes search_loop is_valid try_as_str from_utf8
    effective_bytes
test_is_valid-Passes = refl

abbrev test_as_mut_bytes : Test
test_as_mut_bytes = do
  fixed ← new 4 (codes "rust")
  fixed' ← done_by (write_byte fixed 0 b'R')
  assert_str fixed' (codes "Rust")

test_as_mut_bytes-Passes : Passes test_as_mut_bytes
unfolding new copy_into_buffer copied_len panic_on_zero find_valid_utf8_len find_first_null slice_to
    is_utf8 step lead copy_from_slice write_byte write truncate_utf8_lossy as_str bytes_eq
test_as_mut_bytes-Passes = refl

abbrev test_byte_iter : Test
test_byte_iter = do
  fixed ← new 5 (codes "abc")
  let bytes = byte_iter fixed
  front ← slice_to 3 bytes
  assert (bytes_eq front (codes "abc"))
  back ← slice_from 3 bytes
  assert (bytes_eq back (zeros 2))

test_byte_iter-Passes : Passes test_byte_iter
unfolding new copy_into_buffer copied_len panic_on_zero find_valid_utf8_len find_first_null slice_to
    is_utf8 step lead copy_from_slice byte_iter bytes_eq
test_byte_iter-Passes = refl

abbrev test_truncate_reduces_effective_length : Test
test_truncate_reduces_effective_length = do
  s ← new 10 (codes "HelloWorld")
  assert_str s (codes "HelloWorld")
  s' ← done_by (truncate s 5)
  assert_str s' (codes "Hello")
  rest ← slice_from 5 (as_bytes s')
  all_zero rest

test_truncate_reduces_effective_length-Passes : Passes test_truncate_reduces_effective_length
unfolding new copy_into_buffer copied_len panic_on_zero find_valid_utf8_len find_first_null slice_to
    is_utf8 step lead copy_from_slice truncate len fill_zero as_bytes truncate_utf8_lossy as_str
    bytes_eq
test_truncate_reduces_effective_length-Passes = refl

abbrev test_truncate_no_effect_when_new_len_is_greater : Test
test_truncate_no_effect_when_new_len_is_greater = do
  s ← new 10 (codes "Hi")
  assert_str s (codes "Hi")
  s' ← done_by (truncate s 5)
  assert_str s' (codes "Hi")

test_truncate_no_effect_when_new_len_is_greater-Passes :
    Passes test_truncate_no_effect_when_new_len_is_greater
unfolding new copy_into_buffer copied_len panic_on_zero find_valid_utf8_len find_first_null slice_to
    is_utf8 step lead copy_from_slice truncate len truncate_utf8_lossy as_str bytes_eq
test_truncate_no_effect_when_new_len_is_greater-Passes = refl

abbrev test_into_string : Test
test_into_string = do
  fixed ← new 5 (codes "Hi")
  s ← into_string fixed
  assert (bytes_eq s (codes "Hi"))

test_into_string-Passes : Passes test_into_string
unfolding new copy_into_buffer copied_len panic_on_zero find_valid_utf8_len find_first_null slice_to
    is_utf8 step lead copy_from_slice into_string truncate_utf8_lossy as_str bytes_eq
test_into_string-Passes = refl

abbrev test_to_string_invalid : Test
test_to_string_invalid = do
  invalid ← from_bytes 4 (b'H' ∷ 0xff ∷ b'i' ∷ 0 ∷ [])
  safe ← display invalid
  assert (bytes_eq safe (codes "H"))

test_to_string_invalid-Passes : Passes test_to_string_invalid
unfolding from_bytes copy_into_buffer copied_len panic_on_zero find_valid_utf8_len find_first_null
    slice_to is_utf8 step lead copy_from_slice search_loop display truncate_utf8_lossy as_str
    bytes_eq
test_to_string_invalid-Passes = refl

abbrev test_try_into_string : Test
test_try_into_string = do
  valid ← new 5 (codes "Yes!")
  string ← unwrap (try_into_string valid)
  assert (bytes_eq string (codes "Yes!"))
  also_valid ← new 5 (codes "Still yes!")
  string' ← unwrap (try_into_string also_valid)
  assert (bytes_eq string' (codes "Still"))

test_try_into_string-Passes : Passes test_try_into_string
unfolding new copy_into_buffer copied_len panic_on_zero find_valid_utf8_len find_first_null slice_to
    is_utf8 step lead copy_from_slice try_into_string try_as_str from_utf8 effective_bytes bytes_eq
test_try_into_string-Passes = refl

abbrev test_transparency : Test
test_transparency = do
  let fixed : FixedStr 5 = record { bytes = codes "Hey" ++ zeros 2 }
  assert_str fixed (codes "Hey")

test_transparency-Passes : Passes test_transparency
unfolding find_valid_utf8_len find_first_null slice_to is_utf8 step lead truncate_utf8_lossy as_str
    bytes_eq
test_transparency-Passes = refl

-- The test is about how the standard library quotes a `str`, which is an argument.
abbrev test_debug_format_valid : (Bytes → Bytes) → Test
test_debug_format_valid quote = do
  fixed ← new 5 (codes "Hello")
  debug_str ← debug 1 quote fixed
  assert (bytes_eq debug_str (codes "\"Hello\""))

test_debug_format_valid-Passes :
    (quote : Bytes → Bytes)
    → quote (codes "Hello") ≡ codes "\"Hello\""
    → Passes (test_debug_format_valid quote)
unfolding new copy_into_buffer copied_len panic_on_zero find_valid_utf8_len find_first_null slice_to
    is_utf8 step lead copy_from_slice debug try_as_str from_utf8 effective_bytes bytes_eq
test_debug_format_valid-Passes quote e = rw e refl
