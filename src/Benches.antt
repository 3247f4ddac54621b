-- ===== src/Benches.antt =====
-- benches/hex_format.rs: the input of the benchmarks, and the formatting with the standard library
-- that the crate's own is measured against.
pub mod Same
use mathlib.Core.List
use fixed_str.Common.{
  ℕ, zero, suc, ◌+◌, ◌-◌, ◌/◌, ◌%◌, List, [], ◌∷◌, ◌++◌, none, length, take, drop,
}
use fixed_str.Error.{Outcome}
use fixed_str.Utf8.{Bytes}
use fixed_str.Core.{FixedStr}
use fixed_str.Hex.{fast_format_hex}
use fixed_str.Hex.Spec.{hex_digit}

-- `chunks` of a slice, in parts of `n` bytes. The fuel is the length.
abbrev pub chunks_loop : ℕ → ℕ → Bytes → List Bytes
chunks_loop zero n s = []
chunks_loop (suc fuel) n [] = []
chunks_loop (suc fuel) n (b ∷ s) = take n (b ∷ s) ∷ chunks_loop fuel n (drop n (b ∷ s))

abbrev pub chunks : ℕ → Bytes → List Bytes
chunks n s = chunks_loop (length s) n s

-- `join` of strings
abbrev pub join : Bytes → List Bytes → Bytes
join sep [] = []
join sep (x ∷ []) = x
join sep (x ∷ y ∷ xs) = x ++ (sep ++ join sep (y ∷ xs))

-- `format!("{:02X}", b)`
abbrev pub two_digits : ℕ → Bytes
two_digits b = hex_digit (b / 16) ∷ hex_digit (b % 16) ∷ []

-- The formatting inside `bench_std_format_hex`, whose lines have 16 bytes.
unfoldable pub std_format_hex : ℕ → Bytes → Bytes
std_format_hex group bytes =
    join (b'\n' ∷ [])
      (List.map (λ chunk. join (b' ' ∷ []) (List.map two_digits chunk)) (chunks group bytes))

-- `(first..first + count).map(|i| (i % 256) as u8).collect()`
unfoldable pub cycling : ℕ → ℕ → Bytes
cycling zero first = []
cycling (suc count) first = first % 256 ∷ cycling count (first + 1)

-- `generate_input`
unfoldable pub generate_input : Bytes
generate_input = cycling 1024 0

-- What the two benchmarks compute.
unfoldable pub bench_fast_format_hex : Outcome (FixedStr 4096)
bench_fast_format_hex = fast_format_hex 4096 generate_input 16 none

unfoldable pub bench_std_format_hex : Bytes
bench_std_format_hex = std_format_hex 16 generate_input
