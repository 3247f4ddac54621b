-- ===== src/Serialize/Accepts.antt =====
-- What the readers of src/serialize_ext.rs accept: bytes and strings that no value wrote.
use fixed_str.Common.{ℕ, ◌<◌, ◌≡◌, refl, arith, leb, if◌then◌else◌, ◌∙◌, le→leb, lt→leb}
use native.Mathlib.Decide.{dec_lt}
use fixed_str.Error.{Outcome, ok, FixedStrError, overflow}
use fixed_str.Utf8.{Bytes, IsUtf8}
use fixed_str.Slice.{Returns→ok}
use fixed_str.Helpers.{find_first_null}
use fixed_str.Helpers.Search.{IsSlice}
use fixed_str.Helpers.Copy.{pad}
use fixed_str.EffectiveBytes.{effective_bytes}
use fixed_str.Core.{FixedStr}
use fixed_str.Core.Construct.{IsPrefixOf, new-IsPrefixOf}
use fixed_str.Impl.Strict.{try_from-strict}
use fixed_str.Serialize.{Io, done, failed, visit_str, serde_deserialize, deserialize_as_bytes}
use fixed_str.Serialize.RoundTrip.{visited}

-- A deserializer that shows the visitor the string `s`.
pub record IsShowing {E D : Type 0} (N : ℕ)
    (deserialize_str : (Bytes → Outcome (FixedStr N)) → D → Outcome (Io E (FixedStr N))) (d : D)
    (s : Bytes) : Type 0 where
  pub shows : (visit : Bytes → Outcome (FixedStr N)) → deserialize_str visit d ≡ visited (visit s)

-- Given a valid string shorter than 2^63, at a capacity above 0: for every text format that shows
-- it to the visitor, `serde` deserializes it to a valid value, a valid prefix of the string up to
-- its first null, ended as `IsCut` says, and never refuses it. For every byte format that gives
-- its bytes, `serde_as_bytes` reads the bytes before its first null if they fit, and otherwise
-- refuses, with the capacity and their length.
pub serde_deserialize-deserialize_as_bytes :
    {E D : Type 0} (N : ℕ)
    (deserialize_str : (Bytes → Outcome (FixedStr N)) → D → Outcome (Io E (FixedStr N)))
    (deserialize : D → Io E Bytes) (custom : FixedStrError → E) (d : D) (s : Bytes)
    → 0 < N
    → IsSlice s
    → IsUtf8 s
    → IsShowing N deserialize_str d s
    → deserialize d ≡ done s
    → ((gs : FixedStr N) × (serde_deserialize N deserialize_str d ≡ ok (done gs)) × IsPrefixOf s gs)
      × (deserialize_as_bytes N deserialize custom d ≡ (
          if leb (find_first_null s) N
          then ok (done (record { bytes = pad N (effective_bytes s) }))
          else ok (failed (custom (overflow N (find_first_null s))))))
unfolding serde_deserialize deserialize_as_bytes
serde_deserialize-deserialize_as_bytes N deserialize_str deserialize custom d s pos small valid
      showing e =
    let (gs, made, prefix) = Returns→ok _ (IsPrefixOf s) (new-IsPrefixOf N s pos small) in
    (
      (gs, showing.shows (visit_str N) ∙ rw made refl, prefix),
      rw (e, deserialize_as_bytes, try_from-strict N pos s valid)
          (elim (dec_lt N (find_first_null s)) [
            | yes big ↦ rw (lt→leb (find_first_null s) N big) refl
            | no fits ↦ rw (le→leb (find_first_null s) N (omega arith)) refl
          ]),
    )
