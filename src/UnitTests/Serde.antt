-- ===== src/UnitTests/Serde.antt =====
-- The test of `serde` in src/serialize_ext.rs. What `derive` makes of the struct, and the
-- serializer, deserializer and `assert_tokens` of serde_test, are parameters.
use fixed_str.Common.{ℕ, ◌≡◌, refl, Bool, true, [], ◌∷◌, List}
use fixed_str.Error.{Outcome, ok, ◌>>=◌, FixedStrError}
use fixed_str.Utf8.{Bytes, is_utf8, step, lead, from_utf8}
use fixed_str.Slice.{slice_to, copy_from_slice}
use fixed_str.Helpers.{
  truncate_utf8_lossy, copy_into_buffer, copied_len, panic_on_zero, find_valid_utf8_len,
  find_first_null,
}
use fixed_str.EffectiveBytes.{effective_bytes}
use fixed_str.Core.{FixedStr, new, is_valid, as_bytes}
use fixed_str.Impl.{derived_eq, bytes_eq, try_from}
use fixed_str.Hex.{codes}
use fixed_str.Serialize.{Io, done, serialize_as_bytes, deserialize_as_bytes}
use fixed_str.UnitTests.{Test, Passes}

record ByteWrapper : Type 0 where
  inner : FixedStr 5

-- `derive(PartialEq)` of the one field
abbrev wrapper_eq : ByteWrapper → ByteWrapper → Bool
wrapper_eq a b = derived_eq a.inner b.inner

-- `serde_test::Token`, the kinds that the test names.
data Token : Type 0 where
  struct_start : Bytes → ℕ → Token
  str : Bytes → Token
  borrowed_bytes : Bytes → Token
  struct_end : Token

-- The tokens of a `ByteWrapper`, around those of its field.
abbrev wrapped : Token → List Token
wrapped field = struct_start (codes "ByteWrapper") 1 ∷ str (codes "inner") ∷ field ∷ struct_end ∷ []

-- serde_test gives a byte slice one token, and gives the slice back from it.
record IsTokenFormat {E : Type 0} (serialize_bytes : Bytes → Io E Token)
    (deserialize : Token → Io E Bytes) : Type 0 where
  writes : (s : Bytes) → serialize_bytes s ≡ done (borrowed_bytes s)
  reads : (s : Bytes) → deserialize (borrowed_bytes s) ≡ done s

-- `derive` with `serde(with = "serialize_ext::serde_as_bytes")` calls the two functions of that
-- module for the field.
record IsDerived {E : Type 0} (serialize_bytes : Bytes → Io E Token)
    (deserialize : Token → Io E Bytes) (custom : FixedStrError → E)
    (serialize_wrapper : ByteWrapper → Io E (List Token))
    (deserialize_wrapper : List Token → Outcome (Io E ByteWrapper)) : Type 0 where
  writes_field :
      (w : ByteWrapper) (t : Token)
      → serialize_as_bytes w.inner serialize_bytes ≡ done t
      → serialize_wrapper w ≡ done (wrapped t)
  reads_field :
      (t : Token) (fs : FixedStr 5)
      → deserialize_as_bytes 5 deserialize custom t ≡ ok (done fs)
      → deserialize_wrapper (wrapped t) ≡ ok (done (record { inner = fs }))

-- `assert_tokens` passes if the value serializes to the tokens and they deserialize to a value
-- that is equal to it.
record IsAssertTokens {E : Type 0} (serialize_wrapper : ByteWrapper → Io E (List Token))
    (deserialize_wrapper : List Token → Outcome (Io E ByteWrapper))
    (assert_tokens : ByteWrapper → List Token → Test) : Type 0 where
  passes :
      (w w' : ByteWrapper) (ts : List Token)
      → serialize_wrapper w ≡ done ts
      → deserialize_wrapper ts ≡ ok (done w')
      → wrapper_eq w w' ≡ true
      → Passes (assert_tokens w ts)

module _ {E : Type 0} (serialize_bytes : Bytes → Io E Token) (deserialize : Token → Io E Bytes)
    (custom : FixedStrError → E) (serialize_wrapper : ByteWrapper → Io E (List Token))
    (deserialize_wrapper : List Token → Outcome (Io E ByteWrapper))
    (assert_tokens : ByteWrapper → List Token → Test) where
  abbrev test_serde_as_bytes : Test
  test_serde_as_bytes = do
    inner ← new 5 (codes "Hello")
    assert_tokens (record { inner = inner }) (wrapped (borrowed_bytes (codes "Hello")))

  -- For a derived code that writes and reads the field by `serde_as_bytes`, and a serde_test that
  -- gives a byte slice one token and compares what it wrote and read.
  test_serde_as_bytes-Passes :
      IsTokenFormat serialize_bytes deserialize
      → IsDerived serialize_bytes deserialize custom serialize_wrapper deserialize_wrapper
      → IsAssertTokens serialize_wrapper deserialize_wrapper assert_tokens
      → Passes test_serde_as_bytes
  unfolding new copy_into_buffer copied_len panic_on_zero find_valid_utf8_len find_first_null
      slice_to is_utf8 step lead copy_from_slice truncate_utf8_lossy serialize_as_bytes as_bytes
      derived_eq bytes_eq try_from effective_bytes is_valid from_utf8 deserialize_as_bytes
  test_serde_as_bytes-Passes format derived assertion =
      assertion.passes (record { inner = hello }) (record { inner = hello })
        (wrapped (borrowed_bytes (codes "Hello")))
        (derived.writes_field (record { inner = hello }) (borrowed_bytes (codes "Hello"))
          (format.writes (codes "Hello")))
        (derived.reads_field (borrowed_bytes (codes "Hello")) hello read) refl
    where
      hello : FixedStr 5
      hello = record { bytes = codes "Hello" }

      read :
          deserialize_as_bytes 5 deserialize custom (borrowed_bytes (codes "Hello"))
          ≡ ok (done hello)
      read = rw (format.reads (codes "Hello"), deserialize_as_bytes) refl
