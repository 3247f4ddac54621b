-- ===== src/Serialize/Archive.antt =====
-- `rkyv` of src/serialize_ext.rs: archiving a value and reading it back.
use fixed_str.Common.{
  ℕ, ◌+◌, ◌-◌, ◌*◌, ◌≡◌, refl, ◌++◌, length, drop, arith, length-append, append-nil, ap, ◌∙◌,
  drop_all, drop-append,
}
use fixed_str.Utf8.{Bytes}
use fixed_str.Slice.{zeros, length-zeros}
use fixed_str.Core.{FixedStr}
use fixed_str.Core.Access.{IsFixedStr}
use fixed_str.Serialize.{
  Io, done, bind, bind-done, rkyv_serialize, resolve, check_bytes, rkyv_deserialize,
}

-- A writer that keeps the bytes it is given, one after the other, as long as it has room.
pub record IsWriter {E W : Type 0} (write : Bytes → W → Io E W) (written : W → Bytes) : Type 0 where
  pub adds : (s : Bytes) (w w' : W) → write s w ≡ done w' → written w' ≡ written w ++ s

-- The driver `serialize_and_resolve`: it serializes what the value depends on, resolves the value
-- in a zeroed place of its size, and writes that place.
pub record IsDriver {E W : Type 0} (N : ℕ) (write : Bytes → W → Io E W)
    (archive : FixedStr N → W → Io E W) : Type 0 where
  pub drives :
      (fs : FixedStr N) (w : W)
      → archive fs w ≡ bind (rkyv_serialize fs write w) (write (resolve fs (zeros N) 0))

-- `access_unchecked`: the root of an archive is its last `N` bytes.
abbrev pub access : (N : ℕ) → Bytes → FixedStr N
access N archive = record { bytes = drop (length archive - N) archive }

resolve_lem : {N : ℕ} (fs : FixedStr N) → resolve fs (zeros N) 0 ≡ fs.bytes
unfolding resolve
resolve_lem {N} fs =
    ap (λ rest. fs.bytes ++ rest) (drop_all (0 + N) (zeros N) (omega (arith, length-zeros N)))
    ∙ append-nil fs.bytes

-- For every writer that keeps what it is given, and every driver that serializes a value and then
-- writes what it resolves to, a well-formed value that was archived passes `check_bytes` and is
-- deserialized from the last `N` bytes, and the archive grows by `2 * N` bytes.
pub rkyv_deserialize-archive :
    {E W : Type 0} {N : ℕ} (write : Bytes → W → Io E W) (written : W → Bytes)
    (archive : FixedStr N → W → Io E W) (fs : FixedStr N) (w w' : W)
    → IsFixedStr fs
    → IsWriter write written
    → IsDriver N write archive
    → archive fs w ≡ done w'
    → (check_bytes {E = E} (access N (written w')) ≡ done tt)
      × (rkyv_deserialize {E = E} (access N (written w')) ≡ done fs)
      × (length (written w') ≡ length (written w) + 2 * N)
unfolding rkyv_serialize check_bytes rkyv_deserialize
rkyv_deserialize-archive {N = N} write written archive fs w w' wf writer driver e =
    let (w1, e1, e2) =
      bind-done (write fs.bytes w) (write fs.bytes) w'
        (rw (driver.drives fs w, resolve_lem fs) at e) in
    let all =
      writer.adds fs.bytes w1 w' e2 ∙ ap (λ s. s ++ fs.bytes) (writer.adds fs.bytes w w1 e1) in
    let size = ap length all in
    let front = written w ++ fs.bytes in
    let total = length-append front fs.bytes in
    let half = length-append (written w) fs.bytes in
    let back : drop (length (written w') - N) (written w') ≡ fs.bytes =
      ap (drop (length (written w') - N)) all
      ∙ drop-append front fs.bytes (length (written w') - N)
          (omega (arith, size, total, wf.size)) in
    (
      refl,
      ap (λ bytes. done (record { bytes = bytes })) back,
      omega (arith, size, total, half, wf.size),
    )
