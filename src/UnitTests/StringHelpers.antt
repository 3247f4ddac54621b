-- ===== src/UnitTests/StringHelpers.antt =====
-- The tests of src/string_helpers.rs.
use fixed_str.Common.{ℕ, refl, Option, none, some, [], ◌∷◌, ◌++◌, replicate}
use fixed_str.Error.{Outcome, ok, ◌>>=◌, ◌>>◌, unwrap}
use fixed_str.Utf8.{Bytes, encode_utf8, from_utf8, is_utf8, step, lead}
use fixed_str.Slice.{slice_to, write, copy_from_slice, fill_zero, zeros}
use fixed_str.Helpers.{
  exact, slice, truncate, truncate_utf8_lossy, copy_into_buffer, copied_len, panic_on_zero,
  find_valid_utf8_len, search_loop, find_first_null,
}
use fixed_str.EffectiveBytes.{effective_bytes}
use fixed_str.Core.{new, from_bytes}
use fixed_str.Buffer.{finalize}
use fixed_str.Hex.{
  codes, hex_table, hex_pair, at_limit, separate, put_digits, format_loop, mark_truncated,
  fast_format_hex, dump_loop, dump_as_hex,
}
use fixed_str.Impl.{bytes_eq, eq_str}
use fixed_str.UnitTests.{Test, Passes, Panics, assert, assert_err, slice_from}

-- `"d😊b"`
abbrev emoji : Bytes
emoji = codes "d" ++ (encode_utf8 0x1f60a ++ codes "b")

abbrev test_truncate_utf8_lossy : Test
test_truncate_utf8_lossy = do
  truncated ← truncate_utf8_lossy emoji 4
  assert (bytes_eq truncated (codes "d"))

test_truncate_utf8_lossy-Passes : Passes test_truncate_utf8_lossy
unfolding truncate_utf8_lossy find_valid_utf8_len search_loop find_first_null slice_to is_utf8 step
    lead encode_utf8 bytes_eq
test_truncate_utf8_lossy-Passes = refl

abbrev test_exact_success : Test
test_exact_success = do
  buf ← unwrap (copy_into_buffer 10 (codes "Hello") exact)
  front ← slice_to 5 buf
  assert (bytes_eq front (codes "Hello"))
  back ← slice_from 5 buf
  assert (bytes_eq back (zeros 5))

test_exact_success-Passes : Passes test_exact_success
unfolding copy_into_buffer copied_len panic_on_zero slice_to copy_from_slice bytes_eq
test_exact_success-Passes = refl

abbrev test_exact_overflow : Test
test_exact_overflow = assert_err (copy_into_buffer 5 (codes "Hello, world!") exact)

test_exact_overflow-Passes : Passes test_exact_overflow
unfolding copy_into_buffer copied_len panic_on_zero
test_exact_overflow-Passes = refl

abbrev test_truncate : Test
test_truncate = do
  buf ← unwrap (copy_into_buffer 5 (codes "Hello, world!") truncate)
  assert (bytes_eq buf (codes "Hello"))

test_truncate-Passes : Passes test_truncate
unfolding copy_into_buffer copied_len panic_on_zero find_valid_utf8_len find_first_null slice_to
    is_utf8 step lead copy_from_slice bytes_eq
test_truncate-Passes = refl

abbrev test_fast_format_hex_full_output : Test
test_fast_format_hex_full_output = do
  hex ← fast_format_hex 32 (0x12 ∷ 0xab ∷ 0x00 ∷ 0xff ∷ []) 2 none
  assert (eq_str hex (codes "12 AB\n00 FF"))

test_fast_format_hex_full_output-Passes : Passes test_fast_format_hex_full_output
unfolding fast_format_hex format_loop separate put_digits hex_pair hex_table at_limit mark_truncated
    write fill_zero finalize from_bytes copy_into_buffer copied_len panic_on_zero
    find_valid_utf8_len find_first_null slice_to is_utf8 step lead copy_from_slice eq_str
    effective_bytes bytes_eq
test_fast_format_hex_full_output-Passes = refl

abbrev test_fast_format_hex_line_limit : Test
test_fast_format_hex_line_limit = do
  hex ← fast_format_hex 64 (replicate 10 0xff) 3 (some 2)
  assert (eq_str hex (codes "FF FF FF\nFF FF FF"))

test_fast_format_hex_line_limit-Passes : Passes test_fast_format_hex_line_limit
unfolding fast_format_hex format_loop separate put_digits hex_pair hex_table at_limit mark_truncated
    write fill_zero finalize from_bytes copy_into_buffer copied_len panic_on_zero
    find_valid_utf8_len find_first_null slice_to is_utf8 step lead copy_from_slice eq_str
    effective_bytes bytes_eq
test_fast_format_hex_line_limit-Passes = refl

abbrev test_panic_on_zero : Test
test_panic_on_zero = new 0 (codes "test") >>= λ _. ok tt

test_panic_on_zero-Panics : Panics test_panic_on_zero
unfolding new copy_into_buffer panic_on_zero
test_panic_on_zero-Panics = refl

abbrev test_buffer_copy_mode_slice : Test
test_buffer_copy_mode_slice = do
  buf ← unwrap (copy_into_buffer 5 (codes "Hello, world!") slice)
  assert (bytes_eq buf (codes "Hello"))

test_buffer_copy_mode_slice-Passes : Passes test_buffer_copy_mode_slice
unfolding copy_into_buffer copied_len panic_on_zero slice_to copy_from_slice bytes_eq
test_buffer_copy_mode_slice-Passes = refl

abbrev test_fast_format_hex_with_zero_group : Test
test_fast_format_hex_with_zero_group = fast_format_hex 32 (codes "Test") 0 none >>= λ _. ok tt

test_fast_format_hex_with_zero_group-Panics : Panics test_fast_format_hex_with_zero_group
unfolding fast_format_hex
test_fast_format_hex_with_zero_group-Panics = refl

-- The bytes handed to the callback, which pushes each to a vector.
abbrev collect_output : Bytes → ℕ → Option ℕ → Outcome Bytes
collect_output bytes group max_lines = dump_as_hex bytes group max_lines

abbrev test_debug_format_hex_full_output : Test
test_debug_format_hex_full_output = do
  result ← collect_output (0x12 ∷ 0xab ∷ 0x00 ∷ 0xff ∷ []) 2 none
  s ← unwrap (from_utf8 result)
  assert (bytes_eq s (codes "12 AB\n00 FF"))

test_debug_format_hex_full_output-Passes : Passes test_debug_format_hex_full_output
unfolding dump_as_hex dump_loop hex_pair hex_table at_limit from_utf8 is_utf8 step lead bytes_eq
test_debug_format_hex_full_output-Passes = refl

abbrev test_debug_format_hex_line_limit : Test
test_debug_format_hex_line_limit = do
  result ← collect_output (replicate 10 0xff) 3 (some 2)
  s ← unwrap (from_utf8 result)
  assert (bytes_eq s (codes "FF FF FF\nFF FF FF"))

test_debug_format_hex_line_limit-Passes : Passes test_debug_format_hex_line_limit
unfolding dump_as_hex dump_loop hex_pair hex_table at_limit from_utf8 is_utf8 step lead bytes_eq
test_debug_format_hex_line_limit-Passes = refl
