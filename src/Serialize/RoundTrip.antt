-- ===== src/Serialize/RoundTrip.antt =====
-- Writing and reading back in each format of src/serialize_ext.rs.
use fixed_str.Common.{
  ℕ, ◌<◌, ◌≡◌, ◌≢◌, refl, length, arith, true, if◌then◌else◌, ◌∙◌, Bool-cases, inl, inr, le→ltb,
}
use fixed_str.Error.{Outcome, ok, err, panic, FixedStrError, invalid_utf8}
use fixed_str.Utf8.{Bytes, is_utf8, from_utf8}
use fixed_str.Utf8.Run.{is_utf8_iff}
use fixed_str.Helpers.{find_first_null}
use fixed_str.Helpers.Null.{find_first_null-le}
use fixed_str.Helpers.Copy.{pad}
use fixed_str.EffectiveBytes.Content.{
  effective_bytes-pad, effective_bytes_idem, length-effective_bytes,
}
use fixed_str.Core.{FixedStr, content, new, is_valid, try_as_str, as_bytes}
use fixed_str.Core.Access.{IsFixedStr, is_valid_iff}
use fixed_str.Core.Construct.{new_fits}
use fixed_str.Impl.Convert.{try_from_lem}
use fixed_str.Serialize.{
  Io, done, failed, read_options, write_options, serde_serialize, serde_deserialize,
  serialize_as_bytes, deserialize_as_bytes,
}

-- A reader that stands where a writer began gives back the bytes that `write_all` took.
pub record IsStream {E R W : Type 0} (read_exact : ℕ → R → Io E (Bytes × R))
    (write_all : Bytes → W → Io E W) (reader : W → W → R) : Type 0 where
  pub after : W → W → R
  pub read_back :
      (s : Bytes) (w w' : W)
      → write_all s w ≡ done w'
      → read_exact (length s) (reader w w') ≡ done (s, after w w')

-- For every reader that gives back what a writer took, a well-formed value that `write_options`
-- wrote is read back by `read_options` with all of its bytes.
pub read_options-write_options :
    {E R W : Type 0} {N : ℕ} (read_exact : ℕ → R → Io E (Bytes × R))
    (write_all : Bytes → W → Io E W) (reader : W → W → R)
    (stream : IsStream read_exact write_all reader) (fs : FixedStr N) (w w' : W)
    → IsFixedStr fs
    → write_options fs write_all w ≡ done w'
    → read_options N read_exact (reader w w') ≡ done (fs, stream.after w w')
unfolding read_options write_options
read_options-write_options {N = N} read_exact write_all reader stream fs w w' wf e =
    rw (rw wf.size at (stream.read_back fs.bytes w w' e), read_options) refl

-- A text format: what `serialize_str` made of a string makes `deserialize_str` visit it.
abbrev pub visited : {E A : Type 0} → Outcome A → Outcome (Io E A)
visited (ok a) = ok (done a)
visited (err e) = err e
visited panic = panic

pub record IsTextFormat {E V : Type 0} (N : ℕ) (serialize_str : Bytes → Io E V)
    (deserialize_str : (Bytes → Outcome (FixedStr N)) → V → Outcome (Io E (FixedStr N)))
    : Type 0 where
  pub visits :
      (s : Bytes) (v : V) (visit : Bytes → Outcome (FixedStr N))
      → serialize_str s ≡ done v
      → deserialize_str visit v ≡ visited (visit s)

-- A byte format: what `serialize_bytes` made of bytes deserializes to them.
pub record IsByteFormat {E V : Type 0} (serialize_bytes : Bytes → Io E V)
    (deserialize : V → Io E Bytes) : Type 0 where
  pub restores : (s : Bytes) (v : V) → serialize_bytes s ≡ done v → deserialize v ≡ done s

module _ {N : ℕ} (fs : FixedStr N) (wf : IsFixedStr fs) (pos : 0 < N) where
  -- What a format that gives the content back makes of it: a value with that content.
  new-content : is_valid fs ≡ true → new N (content fs) ≡ ok (record { bytes = pad N (content fs) })
  new-content valid =
      let same = effective_bytes_idem fs.bytes in
      let size = length-effective_bytes (content fs) in
      let size' = length-effective_bytes fs.bytes in
      rw
        (
          new_fits N (content fs) pos (rw same ((is_valid_iff fs).0 valid)) (
              omega (
                arith,
                find_first_null-le (content fs),
                size',
                find_first_null-le fs.bytes,
                wf.size,
              )),
          same,
        )
        refl

  content-pad : content {N = N} (record { bytes = pad N (content fs) }) ≡ content fs
  content-pad = effective_bytes-pad N (content fs) ∙ effective_bytes_idem fs.bytes

  -- For every text format that makes a visitor see the string that was serialized, a well-formed
  -- value with a capacity above 0 that `serialize` accepted is deserialized to a value with the
  -- same content.
  pub serde_deserialize-serde_serialize :
      {E V : Type 0} (serialize_str : Bytes → Io E V)
      (deserialize_str : (Bytes → Outcome (FixedStr N)) → V → Outcome (Io E (FixedStr N)))
      (custom : FixedStrError → E)
      → IsTextFormat N serialize_str deserialize_str
      → (v : V) → serde_serialize fs serialize_str custom ≡ ok (done v)
      → (gs : FixedStr N) × (serde_deserialize N deserialize_str v ≡ ok (done gs))
        × (content gs ≡ content fs)
  unfolding serde_serialize serde_deserialize try_as_str from_utf8 is_valid
  serde_deserialize-serde_serialize serialize_str deserialize_str custom format v e =
      elim (Bool-cases (is_utf8 (content fs))) [
        | inr bad ↦ absurd (refused (rw (serde_serialize, bad) at e))
        | inl good ↦ (
          record { bytes = pad N (content fs) },
          rw
              (
                format.visits (content fs) v (new N) (written (rw (serde_serialize, good) at e)),
                new-content ((is_valid_iff fs).1 ((is_utf8_iff (content fs)).0 good)),
              )
              refl,
          content-pad,
        )
      ]
    where
      refused : ok (failed (custom invalid_utf8)) ≢ ok (done v)
      refused = cc

      written : ok (serialize_str (content fs)) ≡ ok (done v) → serialize_str (content fs) ≡ done v
      written h = cc

  -- For every byte format that gives back the bytes that were serialized, a well-formed value with
  -- a capacity above 0 that `serde_as_bytes` wrote is read back with the same content if it is
  -- valid, and is refused as invalid UTF-8 otherwise.
  pub deserialize_as_bytes-serialize_as_bytes :
      {E V : Type 0} (serialize_bytes : Bytes → Io E V) (deserialize : V → Io E Bytes)
      (custom : FixedStrError → E)
      → IsByteFormat serialize_bytes deserialize
      → (v : V) → serialize_as_bytes fs serialize_bytes ≡ done v
      → (deserialize_as_bytes N deserialize custom v ≡ (
          if is_valid fs
          then ok (done (record { bytes = pad N (content fs) }))
          else ok (failed (custom invalid_utf8))))
        × (content {N = N} (record { bytes = pad N (content fs) }) ≡ content fs)
  unfolding serialize_as_bytes deserialize_as_bytes as_bytes is_valid from_utf8
  deserialize_as_bytes-serialize_as_bytes serialize_bytes deserialize custom format v e =
      let room =
        le→ltb N (find_first_null fs.bytes) (omega (arith, find_first_null-le fs.bytes, wf.size)) in
      (
        rw (format.restores fs.bytes v e, deserialize_as_bytes, try_from_lem N fs.bytes pos, room)
            (elim (Bool-cases (is_utf8 (content fs))) [
              | inl good ↦ rw good refl
              | inr bad ↦ rw bad refl
            ]),
        content-pad,
      )
