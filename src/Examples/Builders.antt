-- ===== src/Examples/Builders.antt =====
-- Builders on concrete strings.
use fixed_str.Common.{
  false, ℕ, List, length, leb, if◌then◌else◌, ◌-◌, ◌≡◌, refl, [], ◌∷◌, ◌++◌, arith,
}
use fixed_str.Error.{ok, err, overflow}
use fixed_str.Utf8.{is_utf8, step, lead, from_utf8, IsUtf8, encode_utf8}
use fixed_str.Utf8.Chars.{encode_all}
use fixed_str.Slice.{slice_to, Returns, zeros, copy_from_slice}
use fixed_str.EffectiveBytes.{effective_bytes}
use fixed_str.Helpers.{truncate_utf8_lossy, find_valid_utf8_len, search_loop, find_first_null}
use fixed_str.Helpers.Copy.{pad}
use fixed_str.Core.{new_const}
use fixed_str.Core.Construct.{IsPrefixOf}
use fixed_str.Buffer.{
  FixedStrBuf, default, try_as_str, try_push_char, remaining, append, try_push_str, push_str_lossy,
  finalize, finalize_unsafe, from_fixed,
}
use fixed_str.Buffer.View.{IsBuf, text}
use fixed_str.Buffer.Finish.{stale, finalize-finalize_unsafe, from_fixed-stale}
use fixed_str.Buffer.History.{
  pushing, pushing_lossy, pushing_char, cutting, apply_all, finalize-apply_all,
}
use fixed_str.Buffer.Clean.{IsTidy, try_as_str-apply_all}
use fixed_str.Buffer.Each.{push_chars, IsEnd}
use fixed_str.Impl.{try_from}
use fixed_str.Impl.Piecewise.{finalize-push_chars}
use fixed_str.Examples.Helpers.{smiling}
use fixed_str.Examples.Values.{smiling-IsUtf8}

-- `hi` and room for four bytes more.
abbrev greeting : FixedStrBuf 6
greeting = record { buffer = 0x68 ∷ 0x69 ∷ 0 ∷ 0 ∷ 0 ∷ 0 ∷ []; len = 2 }

greeting-IsBuf : IsBuf greeting
greeting-IsBuf = record { size = refl; room = omega arith; small = omega arith }

finalize-apply_all_example :
    IsUtf8 (
      text (
        apply_all
          (default 9)
          (pushing smiling ∷ pushing_lossy smiling ∷ pushing_char 0x1f60a ∷ [])))
    × (finalize (
          apply_all
            (default 9)
            (pushing smiling ∷ pushing_lossy smiling ∷ pushing_char 0x1f60a ∷ []))
        ≡ ok (record {
          bytes = pad 9 (
              effective_bytes (
                text (
                  apply_all
                    (default 9)
                    (pushing smiling ∷ pushing_lossy smiling ∷ pushing_char 0x1f60a ∷ []))));
        }))
finalize-apply_all_example =
    finalize-apply_all 9 (pushing smiling ∷ pushing_lossy smiling ∷ pushing_char 0x1f60a ∷ [])
      (omega arith) (omega arith)
      (
        record { utf8 = smiling-IsUtf8; small = omega arith },
        (record { utf8 = smiling-IsUtf8; small = omega arith }, (refl, tt)),
      )

try_as_str-apply_all_example :
    IsTidy (apply_all (default 5) (pushing_lossy smiling ∷ cutting 1 ∷ pushing smiling ∷ []))
    × (try_as_str (apply_all (default 5) (pushing_lossy smiling ∷ cutting 1 ∷ pushing smiling ∷ []))
        ≡ from_utf8 (
            effective_bytes (
              text (
                apply_all (default 5) (pushing_lossy smiling ∷ cutting 1 ∷ pushing smiling ∷ [])))))
    × Returns
        (finalize
          (apply_all (default 5) (pushing_lossy smiling ∷ cutting 1 ∷ pushing smiling ∷ [])))
        (IsPrefixOf (
          text (apply_all (default 5) (pushing_lossy smiling ∷ cutting 1 ∷ pushing smiling ∷ []))
          ++ zeros (
              5
              - (apply_all
                  (default 5)
                  (pushing_lossy smiling ∷ cutting 1 ∷ pushing smiling ∷ [])).len)))
try_as_str-apply_all_example =
    try_as_str-apply_all 5 (pushing_lossy smiling ∷ cutting 1 ∷ pushing smiling ∷ []) (omega arith)
      (omega arith) (omega arith, (tt, (tt, tt)))

-- A null pushed to a builder with no room is no error.
abbrev full : FixedStrBuf 2
full = record { buffer = 0x68 ∷ 0x69 ∷ []; len = 2 }

pushed_null : (try_push_char full 0).1 ≡ ok tt
unfolding try_push_char try_push_str remaining append effective_bytes find_first_null encode_utf8
    copy_from_slice
pushed_null = refl

finalize-finalize_unsafe_example :
    Returns (finalize greeting) (IsPrefixOf (text greeting ++ zeros (6 - 2)))
    × (finalize_unsafe greeting ≡ ok (record { bytes = text greeting ++ zeros (6 - 2) }))
finalize-finalize_unsafe_example = finalize-finalize_unsafe greeting greeting-IsBuf (omega arith)

-- `hi`, a null, and the old bytes `ya`.
from_fixed-stale_example :
    (text
        (try_push_str
          (from_fixed {N = 5} (stale (0x68 ∷ 0x69 ∷ []) (0x79 ∷ 0x61 ∷ [])))
          (0x21 ∷ [])).0
      ≡ 0x68 ∷ 0x69 ∷ 0x21 ∷ [])
    × (effective_bytes
          (try_push_str
            (from_fixed {N = 5} (stale (0x68 ∷ 0x69 ∷ []) (0x79 ∷ 0x61 ∷ [])))
            (0x21 ∷ [])).0.buffer
        ≡ 0x68 ∷ 0x69 ∷ 0x21 ∷ effective_bytes (0x79 ∷ 0x61 ∷ []))
from_fixed-stale_example =
    from_fixed-stale 5 (0x68 ∷ 0x69 ∷ []) (0x79 ∷ 0x61 ∷ []) 0x21 (omega arith, (omega arith, tt))
      (omega arith) (record { size = refl; small = omega arith })

-- "aé😊" at a capacity of six bytes, of which the last character does not fit.
abbrev letters : List ℕ
letters = 0x61 ∷ 0xe9 ∷ 0x1f60a ∷ []

push_chars-letters :
    push_chars (default 6) letters
    ≡ (record { buffer = 0x61 ∷ 0xc3 ∷ 0xa9 ∷ 0 ∷ 0 ∷ 0 ∷ []; len = 3 }, err (overflow 3 4))
unfolding push_chars try_push_char try_push_str remaining append encode_utf8 effective_bytes
    find_first_null copy_from_slice default
push_chars-letters = refl

finalize-push_chars_example :
    (finalize (push_chars (default 6) letters).0 ≡ new_const 6 (encode_all letters))
    × IsEnd 6 letters (push_chars (default 6) letters).1
    × (try_from 6 (encode_all letters) ≡ (
        if leb (length (encode_all letters)) 6
        then new_const 6 (encode_all letters)
        else err (overflow 6 (length (encode_all letters)))))
finalize-push_chars_example =
    finalize-push_chars 6 letters (omega arith) (omega arith)
      ((refl, omega arith), ((refl, omega arith), ((refl, omega arith), tt)))

-- Two emoji and room for six bytes: the loop keeps the first of them, and the lossy push keeps none.
abbrev emoji : List ℕ
emoji = 0x1f60a ∷ 0x1f60a ∷ []

push_str_lossy-emoji : push_str_lossy (default 6) (encode_all emoji) ≡ (default 6, ok false)
unfolding push_str_lossy remaining truncate_utf8_lossy find_valid_utf8_len search_loop slice_to
    is_utf8 step lead find_first_null append encode_utf8 default
push_str_lossy-emoji = refl
