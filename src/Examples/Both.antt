-- ===== src/Examples/Both.antt =====
-- The two cuts, the dumps, and the operations of both types, on concrete inputs.
use fixed_str.Common.{
  zero, suc, ◌<◌, ◌≤◌, ◌≡◌, ◌⊎◌, refl, none, some, [], ◌∷◌, length, take, arith, leb, ltb,
  if◌then◌else◌,
}
use fixed_str.Error.{ok, err, overflow, invalid_utf8}
use fixed_str.Utf8.{Bytes, is_utf8, step, lead}
use fixed_str.Slice.{Returns}
use fixed_str.Helpers.{find_first_null}
use fixed_str.Helpers.Copy.{pad}
use fixed_str.Helpers.Kept.{IsOpen, IsBetween, find_valid_utf8_len-find_valid_boundary}
use fixed_str.EffectiveBytes.{effective_bytes}
use fixed_str.Core.{FixedStr, content, new, from_slice, set, set_lossy, truncate}
use fixed_str.Core.Access.{IsFixedStr}
use fixed_str.Core.Construct.{IsPrefixOf}
use fixed_str.Buffer
use fixed_str.Buffer.{default, try_push_str, push_str_lossy, from_fixed}
use fixed_str.Buffer.View.{IsBuf, text}
use fixed_str.Hex.{dump_as_hex, fast_format_hex}
use fixed_str.Hex.Spec.{shown}
use fixed_str.Hex.RoundTrip.{read_hex, read_hex-dump_as_hex}
use fixed_str.Benches.{std_format_hex}
use fixed_str.Benches.Same.{fast_format_hex-std_format_hex}
use fixed_str.Impl.{try_from, from_str, from_string}
use fixed_str.Impl.Agree.{after, finalized, default-IsBuf}
use fixed_str.Impl.Strict.{new-try_from}
use fixed_str.Impl.Both.{truncate-truncate, try_from-try_from}
use fixed_str.Impl.Equal.{IsAlike, IsBufAlike, mixed_eq-buf_eq}
use fixed_str.Serialize.{done, failed, serde_deserialize, deserialize_as_bytes}
use fixed_str.Serialize.Accepts.{serde_deserialize-deserialize_as_bytes}
use fixed_str.Examples.Helpers.{smiling}
use fixed_str.Examples.Values.{hi, hi-IsFixedStr, smiling-IsUtf8}
use fixed_str.Examples.Text.{keep, visit_kept, no_detail}

smiling-IsOpen : IsOpen smiling 1
unfolding step lead
smiling-IsOpen zero h = refl
smiling-IsOpen (suc zero) h = refl
smiling-IsOpen (suc (suc j)) h = absurd (omega arith)

smiling_whole : find_first_null smiling ≡ 6
unfolding find_first_null
smiling_whole = refl

find_valid_utf8_len-find_valid_boundary_example : IsBetween smiling 4 1
find_valid_utf8_len-find_valid_boundary_example =
    find_valid_utf8_len-find_valid_boundary smiling 4 1 (omega arith) smiling-IsUtf8
      (omega (arith, smiling_whole)) smiling-IsOpen

-- Three bytes, and a limit of one line of two.
abbrev sample : Bytes
sample = 0x12 ∷ 0xab ∷ 0xff ∷ []

read_hex-dump_as_hex_example :
    Returns (dump_as_hex sample 2 (some 1)) (λ out. read_hex out ≡ shown 2 (some 1) 0 sample)
    × Returns
        (fast_format_hex 9 sample 2 (some 1))
        (λ fs. read_hex (content fs) ≡ shown 2 (some 1) 0 sample)
read_hex-dump_as_hex_example =
    read_hex-dump_as_hex 9 sample 2 (some 1) (omega arith) (omega arith) (omega arith)
      (omega arith, (omega arith, (omega arith, tt))) (omega arith)

fast_format_hex-std_format_hex_example :
    (fast_format_hex 9 sample 2 none ≡ ok (record { bytes = pad 9 (std_format_hex 2 sample) }))
    × (dump_as_hex sample 2 none ≡ ok (std_format_hex 2 sample))
fast_format_hex-std_format_hex_example =
    fast_format_hex-std_format_hex 9 2 sample (omega arith) (omega arith) (omega arith)
      (omega arith, (omega arith, (omega arith, tt))) (omega arith)

new-try_from_example :
    (from_slice 4 smiling ≡ new 4 smiling)
    × (from_str 4 smiling ≡ new 4 smiling)
    × (from_string 4 smiling ≡ new 4 smiling)
    × (after (set_lossy hi smiling) ≡ new 4 smiling)
    × (finalized (push_str_lossy (default 4) smiling) ≡ new 4 smiling)
    × (after (set hi smiling) ≡ try_from 4 smiling)
    × (finalized (try_push_str (default 4) smiling) ≡ try_from 4 smiling)
    × (((find_first_null smiling ≤ 4) × (try_from 4 smiling ≡ new 4 smiling))
        ⊎ ((4 < find_first_null smiling)
            × (try_from 4 smiling ≡ err (overflow 4 (find_first_null smiling)))))
new-try_from_example =
    new-try_from hi smiling (omega arith) (omega arith) (omega arith) smiling-IsUtf8

truncate-truncate_example :
    ((truncate hi 1).1 ≡ ok tt)
    × IsFixedStr (truncate hi 1).0
    × (content (truncate hi 1).0 ≡ take 1 (content hi))
    × ((Buffer.truncate (default 4) 1).1 ≡ ok tt)
    × IsBuf (Buffer.truncate (default 4) 1).0
    × (text (Buffer.truncate (default 4) 1).0 ≡ take 1 (text (default 4)))
    × (text (Buffer.truncate (from_fixed hi) 1).0 ≡ content (truncate hi 1).0)
truncate-truncate_example =
    truncate-truncate hi (default 4) 1 hi-IsFixedStr (default-IsBuf 4 (omega arith))

try_from-try_from_example :
    (try_from 4 smiling ≡ (
      if ltb 4 (find_first_null smiling)
      then err (overflow 4 (find_first_null smiling))
      else if is_utf8 (effective_bytes smiling)
      then ok (record { bytes = pad 4 (effective_bytes smiling) })
      else err invalid_utf8))
    × (Buffer.try_from 4 smiling ≡ (
        if leb (length smiling) 4
        then ok (record { buffer = pad 4 smiling; len = find_first_null smiling })
        else err (overflow 4 (length smiling))))
try_from-try_from_example = try_from-try_from 4 smiling (omega arith)

mixed_eq-buf_eq_example :
    IsAlike hi (0x68 ∷ 0x69 ∷ 0 ∷ 0x79 ∷ [])
    × IsBufAlike (from_fixed hi) (default 4) hi (0x68 ∷ 0x69 ∷ 0 ∷ 0x79 ∷ [])
mixed_eq-buf_eq_example =
    mixed_eq-buf_eq hi (from_fixed hi) (default 4) (0x68 ∷ 0x69 ∷ 0 ∷ 0x79 ∷ [])

serde_deserialize-deserialize_as_bytes_example :
    ((gs : FixedStr 4) × (serde_deserialize 4 visit_kept smiling ≡ ok (done gs))
      × IsPrefixOf smiling gs)
    × (deserialize_as_bytes 4 keep no_detail smiling ≡ (
        if leb (find_first_null smiling) 4
        then ok (done (record { bytes = pad 4 (effective_bytes smiling) }))
        else ok (failed (no_detail (overflow 4 (find_first_null smiling))))))
serde_deserialize-deserialize_as_bytes_example =
    serde_deserialize-deserialize_as_bytes 4 visit_kept keep no_detail smiling smiling (omega arith)
      (omega arith) smiling-IsUtf8 (record { shows = λ visit. refl }) refl
