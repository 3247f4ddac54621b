-- ===== src/UnitTests/Values.antt =====
-- The tests of src/fs_impl.rs, src/effective_bytes.rs, src/fs_error.rs and of `binrw` in
-- src/serialize_ext.rs.
use fixed_str.Common.{ℕ, ◌+◌, refl, [], ◌∷◌, ◌++◌, leb, if◌then◌else◌, length, take, drop}
use fixed_str.Error.{ok, ◌>>=◌, ◌>>◌, overflow, invalid_utf8}
use fixed_str.Utf8.{Bytes, is_utf8, step, lead}
use fixed_str.Slice.{slice_to, write, copy_from_slice}
use fixed_str.Helpers.{
  truncate_utf8_lossy, copy_into_buffer, copied_len, panic_on_zero, find_valid_utf8_len,
  find_first_null,
}
use fixed_str.EffectiveBytes.{effective_bytes}
use fixed_str.Core.{new, set, set_lossy, as_str, content, write_byte, into_string}
use fixed_str.Impl.{bytes_eq, bytes_cmp, cmp, partial_cmp, derived_eq, from_string, to_owned_string}
use fixed_str.Hex.{codes}
use fixed_str.Show.{error_display, decimal, decimal_loop}
use fixed_str.Serialize.{Io, done, failed, read_options, write_options}
use fixed_str.UnitTests.{Test, Passes, Panics, assert, assert_str, done_by, is_less, expect}

abbrev test_set_success : Test
test_set_success = do
  fixed ← new 10 (codes "Hello")
  assert_str fixed (codes "Hello")
  fixed' ← done_by (set fixed (codes "Rust"))
  assert_str fixed' (codes "Rust")

test_set_success-Passes : Passes test_set_success
unfolding new set copy_into_buffer copied_len panic_on_zero find_valid_utf8_len find_first_null
    effective_bytes slice_to is_utf8 step lead copy_from_slice truncate_utf8_lossy as_str bytes_eq
test_set_success-Passes = refl

abbrev test_set_overflow : Test
test_set_overflow = do
  fixed ← new 5 (codes "Hi")
  fixed' ← done_by (set fixed (codes "Hello, world!"))
  ok tt

test_set_overflow-Panics : Panics test_set_overflow
unfolding new set copy_into_buffer copied_len panic_on_zero find_valid_utf8_len find_first_null
    effective_bytes slice_to is_utf8 step lead copy_from_slice
test_set_overflow-Panics = refl

abbrev test_set_lossy : Test
test_set_lossy = do
  fixed ← new 5 (codes "Hello")
  fixed' ← done_by (set_lossy fixed (codes "Rustaceans"))
  assert_str fixed' (codes "Rusta")

test_set_lossy-Passes : Passes test_set_lossy
unfolding new set_lossy copy_into_buffer copied_len panic_on_zero find_valid_utf8_len
    find_first_null effective_bytes slice_to is_utf8 step lead copy_from_slice truncate_utf8_lossy
    as_str bytes_eq
test_set_lossy-Passes = refl

abbrev test_ordering : Test
test_ordering = do
  a ← new 10 (codes "Apple")
  b ← new 10 (codes "Banana")
  c ← new 10 (codes "Apple")
  assert (is_less (partial_cmp a b))
  assert (derived_eq a c)

test_ordering-Passes : Passes test_ordering
unfolding new copy_into_buffer copied_len panic_on_zero find_valid_utf8_len find_first_null
    effective_bytes slice_to is_utf8 step lead copy_from_slice partial_cmp cmp bytes_cmp derived_eq
    bytes_eq
test_ordering-Passes = refl

abbrev test_from_string_and_into_string : Test
test_from_string_and_into_string = do
  fixed ← from_string 10 (codes "Hello")
  assert_str fixed (codes "Hello")
  s2 ← to_owned_string fixed
  assert (bytes_eq s2 (codes "Hello"))

test_from_string_and_into_string-Passes : Passes test_from_string_and_into_string
unfolding from_string to_owned_string into_string new copy_into_buffer copied_len panic_on_zero
    find_valid_utf8_len find_first_null effective_bytes slice_to is_utf8 step lead copy_from_slice
    truncate_utf8_lossy as_str bytes_eq
test_from_string_and_into_string-Passes = refl

abbrev test_as_mut_bytes : Test
test_as_mut_bytes = do
  fixed ← new 10 (codes "Hello")
  fixed' ← done_by (write_byte fixed 0 b'J')
  assert_str fixed' (codes "Jello")

test_as_mut_bytes-Passes : Passes test_as_mut_bytes
unfolding new write_byte write copy_into_buffer copied_len panic_on_zero find_valid_utf8_len
    find_first_null effective_bytes slice_to is_utf8 step lead copy_from_slice truncate_utf8_lossy
    as_str bytes_eq
test_as_mut_bytes-Passes = refl

abbrev test_effective_bytes_trait : Test
test_effective_bytes_trait = do
  fixed ← new 10 (codes "Hi")
  assert (bytes_eq (content fixed) (codes "Hi"))
  let effective = effective_bytes (codes "abc" ++ (0 ∷ codes "def"))
  assert (bytes_eq effective (codes "abc"))
  assert (bytes_eq (effective_bytes (codes "hello")) (codes "hello"))

test_effective_bytes_trait-Passes : Passes test_effective_bytes_trait
unfolding new copy_into_buffer copied_len panic_on_zero find_valid_utf8_len find_first_null
    effective_bytes slice_to is_utf8 step lead copy_from_slice bytes_eq
test_effective_bytes_trait-Passes = refl

abbrev test_error_display : Test
test_error_display = do
  let overflow_error = overflow 2 5
  assert (
      bytes_eq (error_display overflow_error)
        (codes "Overflow: tried to add 5 bytes with only 2 bytes available"))
  assert (bytes_eq (error_display invalid_utf8) (codes "Invalid UTF-8"))

test_error_display-Passes : Passes test_error_display
unfolding error_display decimal decimal_loop bytes_eq
test_error_display-Passes = refl

-- A `Cursor` over a vector: its bytes and its position. It has no error but the end of the bytes.
record Cursor : Type 0 where
  bytes : Bytes
  position : ℕ

abbrev write_all : Bytes → Cursor → Io (Unit {0}) Cursor
write_all s cursor = done (record {
  bytes =
      take cursor.position cursor.bytes ++ (s ++ drop (cursor.position + length s) cursor.bytes);
  position = cursor.position + length s;
})

abbrev read_exact : ℕ → Cursor → Io (Unit {0}) (Bytes × Cursor)
read_exact n cursor =
    if leb (cursor.position + n) (length cursor.bytes)
    then done (
      take n (drop cursor.position cursor.bytes),
      record cursor { position = cursor.position + n },
    )
    else failed tt

abbrev test_binrw_roundtrip : Test
test_binrw_roundtrip = do
  original ← new 5 (codes "Hello")
  cursor ← expect (write_options original write_all (record { bytes = []; position = 0 }))
  read ← expect (read_options 5 read_exact (record cursor { position = 0 }))
  assert (derived_eq original read.0)

test_binrw_roundtrip-Passes : Passes test_binrw_roundtrip
unfolding new copy_into_buffer copied_len panic_on_zero find_valid_utf8_len find_first_null slice_to
    is_utf8 step lead copy_from_slice write_options read_options derived_eq bytes_eq
test_binrw_roundtrip-Passes = refl
