-- ===== src/Examples/Debug.antt =====
-- The texts of `Debug` and `Display` on concrete values.
use fixed_str.Common.{none, ◌≡◌, ◌<◌, ◌↔◌, refl, [], ◌∷◌, ◌++◌, arith, if◌then◌else◌, All}
use fixed_str.Error.{ok, overflow}
use fixed_str.Utf8.{Bytes, is_utf8}
use fixed_str.Core.{FixedStr}
use fixed_str.Buffer.{FixedStrBuf}
use fixed_str.Buffer.View.{text}
use fixed_str.Hex.{codes}
use fixed_str.Show.{
  debug, buf_debug, buf_display, decimal, decimal_loop, error_debug, error_display,
}
use fixed_str.Show.Debug.{debug_text, buf_debug_text, debug-debug_text}
use fixed_str.Show.Errors.{parse, display_format, debug_format, parse-error_texts}

shown_error :
    error_display (overflow 5 13)
    ≡ codes "Overflow: tried to add 13 bytes with only 5 bytes available"
unfolding error_display decimal decimal_loop
shown_error = refl

debugged_error : error_debug (overflow 10 15) ≡ codes "Overflow: available 10, found 15"
unfolding error_debug decimal decimal_loop
debugged_error = refl

abbrev quote : Bytes → Bytes
quote s = b'"' ∷ (s ++ b'"' ∷ [])

-- Four bytes that are not a string.
abbrev broken : FixedStr 4
broken = record { bytes = 0x64 ∷ 0xf0 ∷ 0x9f ∷ 0x98 ∷ [] }

broken-All : All (λ b. b < 256) broken.bytes
broken-All = (omega arith, (omega arith, (omega arith, (omega arith, tt))))

abbrev cut_short : FixedStrBuf 4
cut_short = record { buffer = 0x64 ∷ 0xf0 ∷ 0x9f ∷ 0x98 ∷ []; len = 3 }

debug-debug_text_example :
    (debug 2 quote broken ≡ ok (debug_text quote broken))
    × (buf_debug 1 quote cut_short ≡ ok (buf_debug_text quote cut_short))
    × (buf_display cut_short
        ≡ ok (if is_utf8 (text cut_short) then text cut_short else codes "<invalid UTF-8>"))
debug-debug_text_example =
    debug-debug_text 0 quote broken cut_short (record { size = refl; small = omega arith })
      broken-All (record { size = refl; room = omega arith; small = omega arith }) broken-All

parse-error_texts_example :
    (parse none (error_display (overflow 5 130)) ≡ display_format (overflow 5 130))
    × (parse none (error_debug (overflow 5 130)) ≡ debug_format (overflow 5 130))
    × ((error_display (overflow 5 130) ≡ error_display (overflow 51 30))
        ↔ (overflow 5 130 ≡ overflow 51 30))
    × ((error_debug (overflow 5 130) ≡ error_debug (overflow 51 30))
        ↔ (overflow 5 130 ≡ overflow 51 30))
parse-error_texts_example = parse-error_texts (overflow 5 130) (overflow 51 30)
