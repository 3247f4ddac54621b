-- ===== src/Hex/RoundTrip.antt =====
-- A dump of src/string_helpers.rs read back.
use fixed_str.Common.{
  ℕ, ◌+◌, ◌-◌, ◌*◌, ◌/◌, ◌%◌, ◌^◌, ◌≤◌, ◌<◌, ◌≡◌, refl, Bool, false, ◌||◌, Option, [], ◌∷◌, ◌++◌,
  ltb, ◌==◌, if◌then◌else◌, length, arith, All, ap, ◌∙◌,
}
use fixed_str.Utf8.{Bytes}
use fixed_str.Slice.{Returns, Returns-ok}
use fixed_str.Helpers.Copy.{pad}
use fixed_str.EffectiveBytes.Content.{effective_bytes-pad, effective_bytes_of_NoNull}
use fixed_str.Core.{FixedStr, content}
use fixed_str.Hex.{dump_as_hex, fast_format_hex}
use fixed_str.Hex.Spec.{
  hex_digit, separator, hex_text, shown, shown-All, length-hex_text, length-shown,
  hex_text-IsPrintable, IsPrintable-NoNull,
}
use fixed_str.Hex.Dump.{dump_as_hex_lem}
use fixed_str.Hex.Format.{fast_format_hex_lem}

-- A reader of dumps: it leaves out spaces and newlines, and makes a byte of two digits.
abbrev digit_value : ℕ → ℕ
digit_value x = if ltb x b'A' then x - b'0' else x - b'A' + 10

abbrev is_separator : ℕ → Bool
is_separator x = (x == b' ') || (x == b'\n')

unfoldable pub read_hex : Bytes → Bytes
read_hex [] = []
read_hex (x ∷ []) = []
read_hex (x ∷ y ∷ s) =
    let later = read_hex (y ∷ s) in
    let rest = read_hex s in
    if is_separator x then later else (16 * digit_value x + digit_value y) ∷ rest

read_hex-separator :
    (group i x : ℕ) (s : Bytes) → read_hex (separator group i ++ x ∷ s) ≡ read_hex (x ∷ s)
unfolding read_hex
read_hex-separator group i x s = ground arith

digit_value-hex_digit :
    (d : ℕ) → d < 16 → (digit_value (hex_digit d) ≡ d) × (is_separator (hex_digit d) ≡ false)
digit_value-hex_digit d h = ground arith

read_hex-hex_text :
    (group i : ℕ) (bytes : Bytes)
    → All (λ b. b < 256) bytes
    → read_hex (hex_text group i bytes) ≡ bytes
unfolding read_hex
read_hex-hex_text group i [] h = refl
read_hex-hex_text group i (b ∷ bytes) (h, hs) =
    let (high, digit) = digit_value-hex_digit (b / 16) (omega arith) in
    let (low, _) = digit_value-hex_digit (b % 16) (omega arith) in
    let whole : 16 * (b / 16) + b % 16 ≡ b = omega arith in
    read_hex-separator group i (hex_digit (b / 16)) _
    ∙ rw (digit, high, low, whole, read_hex-hex_text group (i + 1) bytes hs)

-- With a group above 0, bytes below 256, and a capacity below 2^63 of at least 1 and three times
-- the number of the bytes, what `dump_as_hex` hands over and the content of what `fast_format_hex`
-- returns are read back, by a reader that leaves out spaces and newlines, as the bytes that the
-- limit of lines shows.
pub read_hex-dump_as_hex :
    (N : ℕ) (bytes : Bytes) (group : ℕ) (m : Option ℕ)
    → 0 < N
    → N < 2 ^ 63
    → 0 < group
    → All (λ b. b < 256) bytes
    → 3 * length bytes ≤ N
    → Returns (dump_as_hex bytes group m) (λ out. read_hex out ≡ shown group m 0 bytes)
      × Returns
          (fast_format_hex N bytes group m)
          (λ fs. read_hex (content fs) ≡ shown group m 0 bytes)
read_hex-dump_as_hex N bytes group m pos small hg hb room =
    let t = shown group m 0 bytes in
    let hs = shown-All group m bytes hb in
    let back = read_hex-hex_text group 0 t hs in
    let fits : length (hex_text group 0 t) ≤ N =
      omega (arith, length-hex_text group 0 t, length-shown group m bytes) in
    let same : content {N = N} (record { bytes = pad N (hex_text group 0 t) })
        ≡ hex_text group 0 t =
      effective_bytes-pad N (hex_text group 0 t)
      ∙ effective_bytes_of_NoNull (hex_text group 0 t)
          (IsPrintable-NoNull _ (hex_text-IsPrintable group 0 t hs)) in
    (
      Returns-ok _ (λ out. read_hex out ≡ t) _ (dump_as_hex_lem bytes group m hg hb) back,
      Returns-ok _ (λ (fs : FixedStr N). read_hex (content fs) ≡ t) _
          (fast_format_hex_lem N bytes group m pos small hg hb fits) (ap read_hex same ∙ back),
    )
