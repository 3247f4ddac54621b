-- ===== src/Hex.antt =====
-- src/string_helpers.rs: the hexadecimal table, `fast_format_hex` and `dump_as_hex`.
pub mod Spec
pub mod Dump
pub mod Turn
pub mod Together
pub mod Format
pub mod Short
pub mod Dots
pub mod RoundTrip
use Prim.Native.Char.{code}
use Prim.Native.String.{String}
use fixed_str.Common.{
  ℕ, zero, suc, ◌+◌, ◌-◌, ◌≡◌, refl, Bool, true, false, ◌&&◌, Option, none, some, List, [], ◌∷◌,
  ◌++◌, ltb, leb, ◌==◌, if◌then◌else◌, get_elem?, length,
}
use fixed_str.Error.{Outcome, ok, panic, ◌>>=◌, ◌>>◌}
use fixed_str.Utf8.{Bytes}
use fixed_str.Slice.{write, fill_zero, zeros}
use fixed_str.Core.{FixedStr}
use fixed_str.Buffer
use fixed_str.Buffer.{FixedStrBuf}

abbrev pub codes : String → Bytes
codes String.[] = []
codes (String.◌∷◌ c s) = code c ∷ codes s

-- Two digits for each entry.
abbrev pub pairs : Bytes → List (ℕ × ℕ)
pairs (a ∷ b ∷ s) = (a, b) ∷ pairs s
pairs _ = []

-- `HEX_TABLE`
unfoldable pub hex_table : List (ℕ × ℕ)
hex_table = pairs (
    codes "000102030405060708090A0B0C0D0E0F"
    ++ (codes "101112131415161718191A1B1C1D1E1F"
        ++ (codes "202122232425262728292A2B2C2D2E2F"
            ++ (codes "303132333435363738393A3B3C3D3E3F"
                ++ (codes "404142434445464748494A4B4C4D4E4F"
                    ++ (codes "505152535455565758595A5B5C5D5E5F"
                        ++ (codes "606162636465666768696A6B6C6D6E6F"
                            ++ (codes "707172737475767778797A7B7C7D7E7F"
                                ++ (codes "808182838485868788898A8B8C8D8E8F"
                                    ++ (codes "909192939495969798999A9B9C9D9E9F"
                                        ++ (codes "A0A1A2A3A4A5A6A7A8A9AAABACADAEAF"
                                            ++ (codes "B0B1B2B3B4B5B6B7B8B9BABBBCBDBEBF"
                                                ++ (codes "C0C1C2C3C4C5C6C7C8C9CACBCCCDCECF"
                                                    ++ (codes "D0D1D2D3D4D5D6D7D8D9DADBDCDDDEDF"
                                                        ++ (codes "E0E1E2E3E4E5E6E7E8E9EAEBECEDEEEF"
                                                            ++ (codes
                                                            "F0F1F2F3F4F5F6F7F8F9FAFBFCFDFEFF"))))))))))))))))

-- `HEX_TABLE[b as usize]`
unfoldable pub hex_pair : ℕ → Outcome (ℕ × ℕ)
hex_pair b = elim (get_elem? hex_table b) [ some p ↦ ok p | none ↦ panic ]

-- `if let Some(max) = max_lines { if line_count >= max { break; } }`
unfoldable pub at_limit : Option ℕ → ℕ → Bool
at_limit none line_count = false
at_limit (some max) line_count = leb max line_count

-- The variables of `fast_format_hex`.
pub record Writer : Type 0 where
  pub buffer : Bytes
  pub pos : ℕ
  pub count_in_line : ℕ
  pub line_count : ℕ
  pub truncated : Bool

-- The state after a part of the loop's body, and whether the loop goes on.
abbrev pub stop : Writer → Outcome (Writer × Bool)
stop w = ok (w, false)

abbrev pub put : Writer → ℕ → Outcome Writer
put w v = write w.buffer w.pos v >>= λ buffer. ok (record w { buffer = buffer; pos = w.pos + 1 })

-- The separator in front of every byte but the first.
unfoldable pub separate : ℕ → ℕ → Option ℕ → Writer → Outcome (Writer × Bool)
separate N group max_lines w =
    if w.count_in_line == group
    then (if at_limit max_lines w.line_count
        then stop w
        else if ltb w.pos N
        then (put w b'\n' >>= λ w'.
            ok (record w' { count_in_line = 0; line_count = w.line_count + 1 }, true))
        else stop (record w { truncated = true }))
    else if ltb w.pos N
    then (put w b' ' >>= λ w'. ok (w', true))
    else stop (record w { truncated = true })

-- The two digits of a byte.
unfoldable pub put_digits : ℕ → ℕ → Writer → Outcome (Writer × Bool)
put_digits N b w =
    if ltb (w.pos + 1) N
    then (do
      pair ← hex_pair b
      buffer ← write w.buffer w.pos pair.0
      buffer' ← write buffer (w.pos + 1) pair.1
      ok (
        record w { buffer = buffer'; pos = w.pos + 2; count_in_line = w.count_in_line + 1 },
        true,
      ))
    else stop (record w { truncated = true })

-- The `for` loop of `fast_format_hex`, from the byte with the index `i` on.
unfoldable pub format_loop : ℕ → ℕ → Option ℕ → ℕ → Bytes → Writer → Outcome Writer
format_loop N group max_lines i [] w = ok w
format_loop N group max_lines i (b ∷ bytes) w =
    (if ltb 0 i then separate N group max_lines w else ok (w, true)) >>= λ (w', on). elim on [
      | false ↦ ok w'
      | true ↦ put_digits N b w' >>= λ (w'', more). elim more [
        | false ↦ ok w''
        | true ↦ format_loop N group max_lines (i + 1) bytes w''
      ]
    ]

-- The dots at the end of a truncated text.
unfoldable pub mark_truncated : ℕ → Writer → Outcome Writer
mark_truncated N w =
    if w.truncated && leb 3 w.pos
    then (let pos = w.pos - 3 in
        if leb (pos + 3) N
        then (do
          buffer ← write w.buffer pos b'.'
          buffer' ← write buffer (pos + 1) b'.'
          buffer'' ← write buffer' (pos + 2) b'.'
          ok (record w { buffer = buffer''; pos = pos + 3 }))
        else ok (record w { pos = pos }))
    else ok w

-- `fast_format_hex`
unfoldable pub fast_format_hex : (N : ℕ) → Bytes → ℕ → Option ℕ → Outcome (FixedStr N)
fast_format_hex N bytes group max_lines =
    if ltb 0 group
    then (do
      w ← format_loop N group max_lines 0 bytes (record {
        buffer = zeros N;
        pos = 0;
        count_in_line = 0;
        line_count = 1;
        truncated = false;
      })
      w' ← mark_truncated N w
      buffer ← fill_zero w'.buffer w'.pos N
      Buffer.finalize {N = N} (record { buffer = buffer; len = w'.pos }))
    else panic

-- The loop of `dump_as_hex`: the bytes that it hands to `write`, in order.
unfoldable pub dump_loop : ℕ → Option ℕ → ℕ → ℕ → ℕ → Bytes → Outcome Bytes
dump_loop group max_lines i count_in_line line_count [] = ok []
dump_loop group max_lines i count_in_line line_count (b ∷ bytes) =
    let full = ltb 0 i && (count_in_line == group) in
    let rest = hex_pair b >>= λ pair.
    dump_loop group max_lines (i + 1) ((if full then 0 else count_in_line) + 1)
      (if full then line_count + 1 else line_count) bytes
    >>= λ out.
        ok (
          (if ltb 0 i then (if full then b'\n' else b' ') ∷ [] else []) ++ pair.0 ∷ pair.1 ∷ out) in
    if full && at_limit max_lines line_count then ok [] else rest

-- `dump_as_hex`
unfoldable pub dump_as_hex : Bytes → ℕ → Option ℕ → Outcome Bytes
dump_as_hex bytes group max_lines =
    if ltb 0 group then dump_loop group max_lines 0 0 1 bytes else panic
