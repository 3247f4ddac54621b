-- ===== src/Examples/Text.antt =====
-- Hexadecimal text, the iterator and the formats on concrete values.
use fixed_str.Common.{
  ℕ, ◌<◌, ◌+◌, ◌*◌, ◌≡◌, ◌<◌, refl, none, some, [], ◌∷◌, ◌++◌, length, arith, if◌then◌else◌, take,
  drop, leb, All, sym, drop-append, le→leb, lt→leb, take-append, length-append, List,
}
use fixed_str.Error.{Outcome, ok, FixedStrError, invalid_utf8}
use fixed_str.Utf8.{Bytes, from_utf8, is_utf8, step, lead}
use fixed_str.EffectiveBytes.{effective_bytes}
use fixed_str.Helpers.{find_first_null}
use fixed_str.Helpers.Copy.{pad}
use fixed_str.Core.{FixedStr, content, is_valid, try_as_str, as_bytes}
use fixed_str.Hex.{codes, hex_pair, hex_table, at_limit, dump_loop, dump_as_hex, fast_format_hex}
use fixed_str.Hex.Spec.{hex_text, shown}
use fixed_str.Hex.Dump.{dump_as_hex_lem}
use fixed_str.Hex.Dots.{IsShown, fast_format_hex-IsShown}
use fixed_str.Serialize.{
  Io, done, failed, bind, rkyv_serialize, rkyv_deserialize, resolve, check_bytes, write_options,
  serde_serialize, serde_deserialize, serialize_as_bytes, deserialize_as_bytes,
}
use fixed_str.Serialize.Archive.{access, rkyv_deserialize-archive}
use fixed_str.Serialize.Stream.{
  IsReader, IsNext, write_values, read_values, all_bytes, read_values-write_values,
}
use fixed_str.Slice.{zeros}
use fixed_str.Serialize.RoundTrip.{
  IsTextFormat, IsByteFormat, visited, serde_deserialize-serde_serialize,
  deserialize_as_bytes-serialize_as_bytes,
}
use fixed_str.Examples.Values.{hi, hi-IsFixedStr}

abbrev sample : Bytes
sample = 0x12 ∷ 0xab ∷ 0x00 ∷ 0xff ∷ []

sample-All : All (λ b. b < 256) sample
sample-All = (omega arith, (omega arith, (omega arith, (omega arith, tt))))

dump_sample : dump_as_hex sample 2 none ≡ ok (codes "12 AB\n00 FF")
unfolding dump_as_hex dump_loop hex_pair hex_table at_limit
dump_sample = refl

dump_sample_limit : dump_as_hex sample 2 (some 0) ≡ ok (codes "12 AB")
unfolding dump_as_hex dump_loop hex_pair hex_table at_limit
dump_sample_limit = refl

dump_as_hex_lem_example :
    dump_as_hex sample 2 (some 1) ≡ ok (hex_text 2 0 (shown 2 (some 1) 0 sample))
dump_as_hex_lem_example = dump_as_hex_lem sample 2 (some 1) (omega arith) sample-All

fast_format_hex-IsShown_example :
    (t : Bytes) × IsShown 6 (hex_text 2 0 (shown 2 none 0 sample)) t
    × (fast_format_hex 6 sample 2 none ≡ ok (record { bytes = pad 6 t }))
fast_format_hex-IsShown_example =
    fast_format_hex-IsShown 6 sample 2 none (omega arith) (omega arith) (omega arith) sample-All

-- A stream in memory.
abbrev write_memory : Bytes → Bytes → Io (Unit {0}) Bytes
write_memory s w = done (w ++ s)

abbrev read_memory : ℕ → Bytes → Io (Unit {0}) (Bytes × Bytes)
read_memory n r = if leb n (length r) then done (take n r, drop n r) else failed tt

memory-IsReader : IsReader read_memory (λ r. r)
memory-IsReader = record { takes = takes; ends = ends }
  where
    takes :
        (r s rest : Bytes)
        → r ≡ s ++ rest
        → (r' : Bytes) × (read_memory (length s) r ≡ done (s, r')) × (r' ≡ rest)
    takes r s rest e =
        let size = length-append s rest in
        (
          rest,
          rw
              (
                e,
                le→leb (length s) (length (s ++ rest)) (omega (arith, size)),
                take-append s rest (length s) refl,
                drop-append s rest (length s) refl,
              )
              refl,
          refl,
        )

    ends : (r : Bytes) (n : ℕ) → length r < n → (e : Unit) × (read_memory n r ≡ failed e)
    ends r n h = (tt, rw (lt→leb n (length r) h) refl)

-- `hi` and `oh`, written behind a byte, read in order from behind it, with three bytes after them.
abbrev hi_oh : List (FixedStr 4)
hi_oh = hi ∷ record { bytes = codes "oh" ++ zeros 2 } ∷ []

read_values-write_values_example :
    (r' : Bytes) × (read_values 4 read_memory 2 (all_bytes hi_oh ++ codes "end") ≡ done (hi_oh, r'))
    × (r' ≡ codes "end")
    × IsNext 4 read_memory (λ r. r) r'
unfolding write_values write_options
read_values-write_values_example =
    read_values-write_values write_memory (λ w. w) read_memory (λ r. r) hi_oh (0xff ∷ [])
      (0xff ∷ all_bytes hi_oh) (all_bytes hi_oh ++ codes "end") (codes "end")
      (record { adds = λ s w w' e. cc }) memory-IsReader
      (hi-IsFixedStr, (record { size = refl; small = omega arith }, tt)) refl refl

-- A serializer with `rkyv` in memory.
abbrev archive_memory : FixedStr 4 → Bytes → Io (Unit {0}) Bytes
archive_memory fs w =
    bind (rkyv_serialize fs write_memory w) (write_memory (resolve fs (zeros 4) 0))

abbrev begun : Bytes
begun = 0xff ∷ []

abbrev archived : Bytes
archived = 0xff ∷ 0x68 ∷ 0x69 ∷ 0 ∷ 0 ∷ 0x68 ∷ 0x69 ∷ 0 ∷ 0 ∷ []

archived-hi : archive_memory hi begun ≡ done archived
unfolding rkyv_serialize resolve
archived-hi = refl

rkyv_deserialize-archive_example :
    (check_bytes {E = Unit {0}} (access 4 archived) ≡ done tt)
    × (rkyv_deserialize {E = Unit {0}} (access 4 archived) ≡ done hi)
    × (length archived ≡ length begun + 2 * 4)
rkyv_deserialize-archive_example =
    rkyv_deserialize-archive write_memory (λ w. w) archive_memory hi begun archived hi-IsFixedStr
      (record { adds = λ s w w' e. cc }) (record { drives = λ fs w. refl }) archived-hi

-- Formats whose documents are the bytes themselves.
abbrev pub keep : Bytes → Io (Unit {0}) Bytes
keep s = done s

abbrev pub visit_kept :
    (Bytes → Outcome (FixedStr 4)) → Bytes → Outcome (Io (Unit {0}) (FixedStr 4))
visit_kept visit v = visited (visit v)

kept-IsTextFormat : IsTextFormat 4 keep visit_kept
kept-IsTextFormat = record { visits = λ s v visit e. let e' : v ≡ s = cc in rw e' refl }

kept-IsByteFormat : IsByteFormat keep keep
kept-IsByteFormat = record { restores = λ s v e. sym e }

pub no_detail : FixedStrError → Unit {0}
no_detail e = tt

serialized_hi : serde_serialize hi keep no_detail ≡ ok (done (content hi))
unfolding serde_serialize try_as_str from_utf8 is_utf8 effective_bytes find_first_null step lead
serialized_hi = refl

written_hi : serialize_as_bytes hi keep ≡ done hi.bytes
unfolding serialize_as_bytes as_bytes
written_hi = refl

serde_deserialize-serde_serialize_example :
    (gs : FixedStr 4) × (serde_deserialize 4 visit_kept (content hi) ≡ ok (done gs))
    × (content gs ≡ content hi)
serde_deserialize-serde_serialize_example =
    serde_deserialize-serde_serialize hi hi-IsFixedStr (omega arith) keep visit_kept no_detail
      kept-IsTextFormat (content hi) serialized_hi

deserialize_as_bytes-serialize_as_bytes_example :
    (deserialize_as_bytes 4 keep no_detail hi.bytes ≡ (
      if is_valid hi
      then ok (done (record { bytes = pad 4 (content hi) }))
      else ok (failed (no_detail invalid_utf8))))
    × (content {N = 4} (record { bytes = pad 4 (content hi) }) ≡ content hi)
deserialize_as_bytes-serialize_as_bytes_example =
    deserialize_as_bytes-serialize_as_bytes hi hi-IsFixedStr (omega arith) keep keep no_detail
      kept-IsByteFormat hi.bytes written_hi
