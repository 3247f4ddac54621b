-- ===== src/Show.antt =====
-- The texts that `Debug` and `Display` write: src/fs_error.rs, src/fs_impl.rs and src/fs_buffer.rs. How
-- the standard library quotes a `&str` for `{:?}` is a parameter.
pub mod Debug
pub mod Decimal
pub mod Errors
use fixed_str.Common.{
  ℕ, zero, suc, true, false, ◌+◌, ◌-◌, ◌/◌, ◌%◌, some, [], ◌∷◌, ◌++◌, ltb, if◌then◌else◌,
}
use fixed_str.Error.{Outcome, ok, err, panic, FixedStrError, overflow, invalid_utf8, ◌>>=◌}
use fixed_str.Utf8.{Bytes, is_utf8}
use fixed_str.Slice.{slice_to}
use fixed_str.Core.{FixedStr, as_str, try_as_str}
use fixed_str.Buffer.{FixedStrBuf}
use fixed_str.Hex.{codes, fast_format_hex}

-- `{}` of a `usize`: its decimal digits. The fuel is more than the digits.
unfoldable pub decimal_loop : ℕ → ℕ → Bytes
decimal_loop zero n = []
decimal_loop (suc fuel) n =
    let front = decimal_loop fuel (n / 10) in
    if ltb n 10 then (b'0' + n) ∷ [] else front ++ (b'0' + n % 10) ∷ []

unfoldable pub decimal : ℕ → Bytes
decimal n = decimal_loop (suc n) n

-- `Debug` of `FixedStrError`
unfoldable pub error_debug : FixedStrError → Bytes
error_debug (overflow available found) =
    codes "Overflow: available " ++ (decimal available ++ (codes ", found " ++ decimal found))
error_debug invalid_utf8 = codes "InvalidUtf8"

-- `Display` of `FixedStrError`
unfoldable pub error_display : FixedStrError → Bytes
error_display (overflow available found) =
    codes "Overflow: tried to add "
    ++ (decimal found
        ++ (codes " bytes with only " ++ (decimal available ++ codes " bytes available")))
error_display invalid_utf8 = codes "Invalid UTF-8"

-- `Display` of `FixedStr`
unfoldable pub display : {N : ℕ} → FixedStr N → Outcome Bytes
display fs = as_str fs

-- `Debug` of `FixedStr`. It writes the dump, a `FixedStr<384>`, by another call of itself; the fuel
-- counts the calls.
unfoldable pub debug : {N : ℕ} → ℕ → (Bytes → Bytes) → FixedStr N → Outcome Bytes
debug zero quote fs = panic
debug (suc fuel) quote fs = elim (try_as_str fs) [
  | ok s ↦ ok (quote s)
  | err e ↦ (do
    dump ← fast_format_hex 384 fs.bytes 16 (some 8)
    shown ← debug fuel quote dump
    ok (codes "<invalid UTF-8>\n" ++ shown))
  | panic ↦ panic
]

-- `Display` of `FixedStrBuf`
unfoldable pub buf_display : {N : ℕ} → FixedStrBuf N → Outcome Bytes
buf_display b =
    slice_to b.len b.buffer >>= λ s. ok (if is_utf8 s then s else codes "<invalid UTF-8>")

-- `Debug` of `FixedStrBuf`
unfoldable pub buf_debug : {N : ℕ} → ℕ → (Bytes → Bytes) → FixedStrBuf N → Outcome Bytes
buf_debug {N} fuel quote b = slice_to b.len b.buffer >>= λ s. elim (is_utf8 s) [
  | true ↦ ok (codes "FixedStrBuf<" ++ (decimal N ++ (codes ">(" ++ (quote s ++ codes ")"))))
  | false ↦ (do
    dump ← fast_format_hex 384 b.buffer 16 (some 8)
    shown ← debug fuel quote dump
    ok (codes "FixedStrBuf<" ++ (decimal N ++ (codes ">(<invalid UTF-8>) " ++ shown))))
]
