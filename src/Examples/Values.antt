-- ===== src/Examples/Values.antt =====
-- Values of `FixedStr` made, changed and compared.
use fixed_str.Common.{
  ◌^◌, ◌*◌, ◌-◌, ℕ, ◌≡◌, ◌<◌, ◌⊎◌, refl, [], ◌∷◌, arith, true, false, if◌then◌else◌, take,
}
use Prim.Native.Nat.{eq}
use fixed_str.Error.{ok, err, panic, invalid_utf8}
use fixed_str.Utf8.{Bytes, IsUtf8, step, lead, encode_utf8, is_utf8, from_utf8}
use fixed_str.Slice.{copy_from_slice, Returns, zeros, slice_to}
use fixed_str.EffectiveBytes.{effective_bytes}
use fixed_str.Helpers.{
  copy_into_buffer, copied_len, panic_on_zero, find_valid_utf8_len, search_loop, find_first_null,
}
use fixed_str.Helpers.Copy.{pad}
use fixed_str.Helpers.Search.{IsSlice}
use fixed_str.Impl.Loss.{push_str_lossy-new_const}
use fixed_str.Impl.Agree.{after, finalized}
use fixed_str.Core.{
  FixedStr, new, new_const, set_lossy, from_slice, from_bytes, from_slice_unsafe, from_bytes_unsafe,
  as_str, try_as_str, into_string, try_into_string, to_string_lossy, len, is_valid,
}
use fixed_str.Core.Access.{IsFixedStr, IsPrefixCut}
use fixed_str.Core.Lossy.{IsRepaired}
use fixed_str.Core.Fit.{new_const-fit}
use fixed_str.Helpers.Fit.{fit}
use fixed_str.Utf8.Chars.{encode_all}
use fixed_str.Utf8.Lossy.{from_utf8_lossy, lossy_run}
use fixed_str.Buffer
use fixed_str.Buffer.{from_fixed, default, push_str_lossy}
use fixed_str.Buffer.Lossy.{to_string_lossy-as_str}
use fixed_str.Core.Construct.{IsPrefixOf, first_bytes, constructors_lem}
use fixed_str.Impl.{cmp, derived_eq}
use fixed_str.Impl.Equal.{cmp-derived_eq}
use fixed_str.Buffer.Finish.{stale}
use fixed_str.Examples.Helpers.{smiling}

-- `hi` at the capacity 4.
abbrev pub hi : FixedStr 4
hi = record { bytes = 0x68 ∷ 0x69 ∷ 0 ∷ 0 ∷ [] }

pub hi-IsFixedStr : IsFixedStr hi
hi-IsFixedStr = record { size = refl; small = omega arith }

pub hi-is_valid : is_valid hi ≡ true
unfolding is_valid try_as_str from_utf8 is_utf8 effective_bytes find_first_null step lead
hi-is_valid = refl

-- A slice shorter than the capacity that is no string is not copied.
from_slice_damaged : from_slice 10 (0xff ∷ []) ≡ ok (record { bytes = zeros 10 })
unfolding from_slice copy_into_buffer copied_len panic_on_zero find_valid_utf8_len search_loop
    find_first_null slice_to is_utf8 step lead copy_from_slice
from_slice_damaged = refl

constructors_lem_example :
    ((0 < 4)
      × Returns (new 4 smiling) (IsPrefixOf smiling)
      × Returns (from_slice 4 smiling) (IsPrefixOf smiling)
      × Returns (from_bytes 4 smiling) (IsPrefixOf smiling)
      × (from_slice_unsafe 4 smiling ≡ ok (first_bytes 4 smiling))
      × (from_bytes_unsafe 4 smiling ≡ ok (first_bytes 4 smiling)))
    ⊎ ((◌≡◌ {A = ℕ} 4 0)
        × (new 4 smiling ≡ panic)
        × (from_slice 4 smiling ≡ panic)
        × (from_bytes 4 smiling ≡ panic)
        × (from_slice_unsafe 4 smiling ≡ panic)
        × (from_bytes_unsafe 4 smiling ≡ panic))
constructors_lem_example = constructors_lem 4 smiling (omega arith)

pub smiling-IsUtf8 : IsUtf8 smiling
unfolding step lead
smiling-IsUtf8 = refl

new_const-fit_example :
    new_const 5 (encode_all (0x64 ∷ 0x1f60a ∷ 0x62 ∷ []))
    ≡ ok (record { bytes = pad 5 (encode_all (fit 5 (0x64 ∷ 0x1f60a ∷ 0x62 ∷ []))) })
new_const-fit_example =
    new_const-fit 5 (0x64 ∷ 0x1f60a ∷ 0x62 ∷ []) (omega arith) (refl, (refl, (refl, tt)))

-- Three emoji at the capacity 6: `new` makes an empty value, and `new_const` keeps one.
emoji_small : IsSlice (encode_all (0x1f60a ∷ 0x1f600 ∷ 0x1f601 ∷ []))
unfolding encode_utf8
emoji_small = omega arith

push_str_lossy-new_const_example :
    (new 6 (encode_all (0x1f60a ∷ 0x1f600 ∷ 0x1f601 ∷ [])) ≡ ok (record { bytes = zeros 6 }))
    × (after (
          set_lossy {N = 6}
            (record { bytes = zeros 6 })
            (encode_all (0x1f60a ∷ 0x1f600 ∷ 0x1f601 ∷ [])))
        ≡ ok (record { bytes = zeros 6 }))
    × (finalized (push_str_lossy (default 6) (encode_all (0x1f60a ∷ 0x1f600 ∷ 0x1f601 ∷ [])))
        ≡ ok (record { bytes = zeros 6 }))
    × (new_const 6 (encode_all (0x1f60a ∷ 0x1f600 ∷ 0x1f601 ∷ []))
        ≡ ok (record {
          bytes = pad 6 (encode_all (take (2 * 2 ^ 0 - 1) (0x1f60a ∷ 0x1f600 ∷ 0x1f601 ∷ [])));
        }))
push_str_lossy-new_const_example =
    push_str_lossy-new_const 0 6 (record { bytes = zeros 6 }) (0x1f60a ∷ 0x1f600 ∷ 0x1f601 ∷ [])
      refl ((refl, omega arith), ((refl, omega arith), ((refl, omega arith), tt))) (omega arith)
      emoji_small

-- Four bytes that are not a string.
abbrev broken : FixedStr 4
broken = record { bytes = 0x64 ∷ 0xf0 ∷ 0x9f ∷ 0x98 ∷ [] }

to_string_lossy-as_str_example :
    (p t : Bytes) × (as_str broken ≡ ok p)
    × (into_string broken ≡ ok p)
    × IsPrefixCut broken.bytes 4 p
    × (try_as_str broken ≡ (if is_valid broken then ok p else err invalid_utf8))
    × (try_into_string broken ≡ (if is_valid broken then ok p else err invalid_utf8))
    × (to_string_lossy broken ≡ ok t)
    × (Buffer.to_string_lossy (from_fixed broken) ≡ t)
    × IsRepaired broken p t
to_string_lossy-as_str_example =
    to_string_lossy-as_str broken (record { size = refl; small = omega arith })

-- The first byte, and one replacement character for the part of the emoji.
lossy_broken : to_string_lossy broken ≡ ok (0x64 ∷ 0xef ∷ 0xbf ∷ 0xbd ∷ [])
unfolding to_string_lossy slice_to len find_first_null from_utf8_lossy lossy_run step lead
lossy_broken = refl

cmp-derived_eq_example :
    (cmp {N = 4} (stale (0x68 ∷ 0x69 ∷ []) (0x61 ∷ [])) (stale (0x68 ∷ 0x69 ∷ []) (0 ∷ [])) ≡ eq)
    × (derived_eq {N = 4} (stale (0x68 ∷ 0x69 ∷ []) (0x61 ∷ [])) (stale (0x68 ∷ 0x69 ∷ []) (0 ∷ []))
        ≡ false)
cmp-derived_eq_example =
    cmp-derived_eq 4 (0x68 ∷ 0x69 ∷ []) (0x61 ∷ []) (0 ∷ [])
      (record { size = refl; small = omega arith }) (record { size = refl; small = omega arith })
      (omega arith, (omega arith, tt)) (λ e. absurd cc)
