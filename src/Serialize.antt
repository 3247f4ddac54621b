-- ===== src/Serialize.antt =====
-- src/serialize_ext.rs: the features `binrw`, `rkyv` and `serde`. The third-party readers, writers
-- and serializers are parameters, each method that is called an argument.
pub mod RoundTrip
pub mod Archive
pub mod Accepts
pub mod Stream
use fixed_str.Common.{◌≡◌, refl, ℕ, ◌+◌, ◌++◌, take, drop}
use fixed_str.Error.{Outcome, ok, err, panic, FixedStrError, invalid_utf8}
use fixed_str.Utf8.{Bytes}
use fixed_str.Core.{FixedStr, new, try_as_str, as_bytes}
use fixed_str.Impl
use fixed_str.Hex.{codes}
use fixed_str.Show.{decimal}

-- What a fallible call of another crate gives: a value, or that crate's error.
pub data Io {ℓ} (E A : Type ℓ) : Type ℓ where
  done : A → Io E A
  failed : E → Io E A

-- `?` of such a call, with what comes after it.
abbrev pub bind {ℓ} : {E A B : Type ℓ} → Io E A → (A → Io E B) → Io E B
bind (done a) f = f a
bind (failed e) f = failed e

pub bind-done :
    {E A B : Type 0} (r : Io E A) (f : A → Io E B) (b : B)
    → bind r f ≡ done b
    → (a : A) × (r ≡ done a) × (f a ≡ done b)
bind-done (done a) f b e = (a, refl, e)
bind-done (failed x) f b e = absurd cc

-- `BinRead::read_options`, over the reader's `read_exact`.
unfoldable pub read_options :
    {E R : Type 0} (N : ℕ) → (ℕ → R → Io E (Bytes × R)) → R → Io E (FixedStr N × R)
read_options N read_exact reader = elim (read_exact N reader) [
  | done (buf, reader') ↦ done (record { bytes = buf }, reader')
  | failed e ↦ failed e
]

-- `BinWrite::write_options`, over the writer's `write_all`.
unfoldable pub write_options :
    {E W : Type 0} {N : ℕ} → FixedStr N → (Bytes → W → Io E W) → W → Io E W
write_options fs write_all writer = write_all fs.bytes writer

-- `rkyv`: `Serialize::serialize`, over the serializer's `write`.
unfoldable pub rkyv_serialize :
    {E W : Type 0} {N : ℕ} → FixedStr N → (Bytes → W → Io E W) → W → Io E W
rkyv_serialize fs write serializer = write fs.bytes serializer

-- `rkyv`: `Archive::resolve`, which writes the value over the `N` bytes of memory at `out`.
unfoldable pub resolve : {N : ℕ} → FixedStr N → Bytes → ℕ → Bytes
resolve {N} fs memory out = take out memory ++ (fs.bytes ++ drop (out + N) memory)

-- `rkyv`: `CheckBytes::check_bytes`, which takes any bytes for a value.
unfoldable pub check_bytes : {E : Type 0} {N : ℕ} → FixedStr N → Io E (Unit {0})
check_bytes fs = done tt

-- `rkyv`: `Deserialize::deserialize`.
unfoldable pub rkyv_deserialize : {E : Type 0} {N : ℕ} → FixedStr N → Io E (FixedStr N)
rkyv_deserialize fs = done fs

-- `serde`: `Serialize::serialize`, over the serializer's `serialize_str` and `Error::custom`.
unfoldable pub serde_serialize :
    {E A : Type 0} {N : ℕ} → FixedStr N → (Bytes → Io E A) → (FixedStrError → E) → Outcome (Io E A)
serde_serialize fs serialize_str custom = elim (try_as_str fs) [
  | ok s ↦ ok (serialize_str s)
  | err e ↦ ok (failed (custom invalid_utf8))
  | panic ↦ panic
]

-- `serde_as_bytes::serialize`, over the serializer's `serialize_bytes`.
unfoldable pub serialize_as_bytes : {E A : Type 0} {N : ℕ} → FixedStr N → (Bytes → Io E A) → Io E A
serialize_as_bytes fs serialize_bytes = serialize_bytes (as_bytes fs)

-- `serde_as_bytes::deserialize`, over the deserializer for `&[u8]` and `Error::custom`.
unfoldable pub deserialize_as_bytes :
    {E D : Type 0} (N : ℕ)
    → (D → Io E Bytes)
    → (FixedStrError → E)
    → D
    → Outcome (Io E (FixedStr N))
deserialize_as_bytes N deserialize custom deserializer = elim (deserialize deserializer) [
  | failed e ↦ ok (failed e)
  | done bytes ↦ elim (Impl.try_from N bytes) [
    | ok fs ↦ ok (done fs)
    | err e ↦ ok (failed (custom e))
    | panic ↦ panic
  ]
]

-- `FixedStrVisitor::expecting`
unfoldable pub expecting : ℕ → Bytes
expecting N = codes "a string of at most " ++ (decimal N ++ codes " bytes")

-- `FixedStrVisitor::visit_str`
unfoldable pub visit_str : (N : ℕ) → Bytes → Outcome (FixedStr N)
visit_str N value = new N value

-- `serde`: `Deserialize::deserialize`, over `deserialize_str`, which takes the visitor.
unfoldable pub serde_deserialize :
    {E D : Type 0} (N : ℕ)
    → ((Bytes → Outcome (FixedStr N)) → D → Outcome (Io E (FixedStr N)))
    → D
    → Outcome (Io E (FixedStr N))
unfolding visit_str
serde_deserialize N deserialize_str deserializer = deserialize_str (visit_str N) deserializer
