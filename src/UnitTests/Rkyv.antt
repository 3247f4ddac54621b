-- ===== src/UnitTests/Rkyv.antt =====
-- The tests of `rkyv` in src/serialize_ext.rs, over the third-party writer and driver.
use fixed_str.Common.{ℕ, ◌≡◌, refl, ◌++◌, arith}
use fixed_str.Error.{Outcome, ok, ◌>>=◌}
use fixed_str.Utf8.{Bytes, is_utf8, step, lead}
use fixed_str.Slice.{slice_to, copy_from_slice, zeros}
use fixed_str.Helpers.{
  truncate_utf8_lossy, copy_into_buffer, copied_len, panic_on_zero, find_valid_utf8_len,
  find_first_null,
}
use fixed_str.Core.{FixedStr, new, as_str}
use fixed_str.Core.Access.{IsFixedStr}
use fixed_str.Impl.{bytes_eq}
use fixed_str.Hex.{codes}
use fixed_str.Serialize.{Io, done, rkyv_deserialize}
use fixed_str.Serialize.Archive.{IsWriter, IsDriver, access, rkyv_deserialize-archive}
use fixed_str.UnitTests.{Test, Passes, assert, expect}

-- The archive that is in the output after `to_bytes_in_with_alloc` and `access_unchecked`.
module _ {E W : Type 0} (written : W → Bytes) (start : W) where
  abbrev reread : {N : ℕ} → (FixedStr N → W → Io E W) → FixedStr N → Outcome (FixedStr N)
  reread {N} archive original = expect (archive original start) >>= λ w. ok (access N (written w))

  abbrev test_rkyv_roundtrip_no_alloc : (FixedStr 10 → W → Io E W) → Test
  test_rkyv_roundtrip_no_alloc archive = do
    original ← new 10 (codes "Hello")
    archived ← reread archive original
    s ← as_str archived
    t ← as_str original
    assert (bytes_eq s t)

  abbrev test_rkyv_zero_copy_no_alloc : (FixedStr 8 → W → Io E W) → Test
  test_rkyv_zero_copy_no_alloc archive = do
    original ← new 8 (codes "Test123")
    archived ← reread archive original
    s ← as_str archived
    assert (bytes_eq s (codes "Test123"))

  reread_lem :
      {N : ℕ} (write : Bytes → W → Io E W) (archive : FixedStr N → W → Io E W) (fs : FixedStr N)
      (w : W)
      → IsFixedStr fs
      → IsWriter write written
      → IsDriver N write archive
      → archive fs start ≡ done w
      → reread archive fs ≡ ok fs
  unfolding rkyv_deserialize
  reread_lem write archive fs w wf writer driver e =
      let (_, back, _) =
        rkyv_deserialize-archive {E = E} write written archive fs start w wf writer driver e in
      rw (e, same back) refl
    where
      same : {N : ℕ} {a b : FixedStr N} → Path (Io E (FixedStr N)) (done a) (done b) → a ≡ b
      same e = cc

  -- For a writer that keeps what it is given, a driver that serializes a value and then writes what
  -- it resolves to, and an output with enough room.
  test_rkyv_roundtrip_no_alloc-Passes :
      (write : Bytes → W → Io E W) (archive : FixedStr 10 → W → Io E W) (w : W)
      → IsWriter write written
      → IsDriver 10 write archive
      → archive (record { bytes = codes "Hello" ++ zeros 5 }) start ≡ done w
      → Passes (test_rkyv_roundtrip_no_alloc archive)
  unfolding new copy_into_buffer copied_len panic_on_zero find_valid_utf8_len find_first_null
      slice_to is_utf8 step lead copy_from_slice truncate_utf8_lossy as_str bytes_eq
  test_rkyv_roundtrip_no_alloc-Passes write archive w writer driver e =
      rw
        (reread_lem write archive (record { bytes = codes "Hello" ++ zeros 5 }) w
          (record { size = refl; small = omega arith }) writer driver e)
        refl

  test_rkyv_zero_copy_no_alloc-Passes :
      (write : Bytes → W → Io E W) (archive : FixedStr 8 → W → Io E W) (w : W)
      → IsWriter write written
      → IsDriver 8 write archive
      → archive (record { bytes = codes "Test123" ++ zeros 1 }) start ≡ done w
      → Passes (test_rkyv_zero_copy_no_alloc archive)
  unfolding new copy_into_buffer copied_len panic_on_zero find_valid_utf8_len find_first_null
      slice_to is_utf8 step lead copy_from_slice truncate_utf8_lossy as_str bytes_eq
  test_rkyv_zero_copy_no_alloc-Passes write archive w writer driver e =
      rw
        (reread_lem write archive (record { bytes = codes "Test123" ++ zeros 1 }) w
          (record { size = refl; small = omega arith }) writer driver e)
        refl
