-- ===== src/Benches/Same.antt =====
-- The dump of src/string_helpers.rs and the text that benches/hex_format.rs makes with the standard
-- library are the same.
use fixed_str.Common.{
  ℕ, zero, suc, ◌+◌, ◌-◌, ◌*◌, ◌^◌, ◌≤◌, ◌<◌, ◌≡◌, refl, List, [], ◌∷◌, ◌++◌, none, ap, ◌∙◌, sym,
  inr, length, take, drop, All, arith, lt→ltb, append-nil, length-take, length-drop,
  take-append-drop,
}
use mathlib.Core.List
use fixed_str.Error.{ok}
use fixed_str.Utf8.{Bytes}
use fixed_str.Helpers.Copy.{pad}
use fixed_str.Hex.{fast_format_hex, dump_as_hex}
use fixed_str.Hex.Spec.{separator, hex_text, length-hex_text}
use fixed_str.Hex.Dump.{separator_full, separator_part, line_start, dump_as_hex_lem}
use fixed_str.Hex.Format.{fast_format_hex_lem}
use fixed_str.Benches.{
  chunks_loop, join, two_digits, std_format_hex, cycling, generate_input, bench_fast_format_hex,
  bench_std_format_hex,
}

abbrev line : Bytes → Bytes
line chunk = join (b' ' ∷ []) (List.map two_digits chunk)

abbrev words : Bytes → Bytes
words [] = []
words (b ∷ s) = b' ' ∷ (two_digits b ++ words s)

line-cons : (b : ℕ) (s : Bytes) → line (b ∷ s) ≡ two_digits b ++ words s
line-cons b [] = refl
line-cons b (c ∷ s) = rw (line-cons c s) refl

-- The text of the bytes of a line behind its first one.
hex_text-words :
    (group q r i k : ℕ) (s rest : Bytes)
    → i ≡ q * group + r
    → 0 < r
    → r + length s ≤ group
    → k ≡ i + length s
    → hex_text group i (s ++ rest) ≡ words s ++ hex_text group k rest
hex_text-words group q r i k [] rest e pos fits ek = let e' : k ≡ i = omega arith in rw e'
hex_text-words group q r i k (b ∷ s) rest e pos fits ek =
    let later =
      hex_text-words group q (r + 1) (i + 1) k s rest (omega arith) (omega arith) (omega arith)
        (omega arith) in
    rw (separator_part group q r i e (omega arith) (inr pos), lt→ltb 0 i (omega arith), later) refl

hex_text-line :
    (g q i k b : ℕ) (s : Bytes)
    → i ≡ q * suc g
    → k ≡ i + 1 + length (take g s)
    → hex_text (suc g) i (b ∷ s)
      ≡ separator (suc g) i ++ (line (b ∷ take g s) ++ hex_text (suc g) k (drop g s))
hex_text-line g q i k b s e ek =
    let later =
      hex_text-words (suc g) q 1 (i + 1) k (take g s) (drop g s) (omega arith) (omega arith)
        (omega (arith, length-take g s)) ek in
    rw (line-cons b (take g s)) (
      ap (λ t. separator (suc g) i ++ (two_digits b ++ t))
        (ap (hex_text (suc g) (i + 1)) (sym (take-append-drop g s)) ∙ later))

-- The lines behind the first one.
abbrev tail : List Bytes → Bytes
tail [] = []
tail (x ∷ xs) = b'\n' ∷ join (b'\n' ∷ []) (x ∷ xs)

join-tail : (x : Bytes) (xs : List Bytes) → join (b'\n' ∷ []) (x ∷ xs) ≡ x ++ tail xs
join-tail x [] = sym (append-nil x)
join-tail x (y ∷ xs) = refl

hex_text-tail :
    (g q fuel k : ℕ) (s : Bytes)
    → (0 < length s → k ≡ q * suc g + suc g)
    → length s ≤ fuel
    → hex_text (suc g) k s ≡ tail (List.map line (chunks_loop fuel (suc g) s))
hex_text-tail g q zero k [] e fits = refl
hex_text-tail g q (suc fuel) k [] e fits = refl
hex_text-tail g q zero k (b ∷ s) e fits = absurd (omega arith)
hex_text-tail g q (suc fuel) k (b ∷ s) e fits =
    let full : k ≡ q * suc g + suc g = e (omega arith) in
    let start = line_start q (suc g) k full in
    let next = k + 1 + length (take g s) in
    let later =
      hex_text-tail g (q + 1) fuel next (drop g s)
        (λ more. omega (arith, start, length-take g s, length-drop g s, more))
        (omega (arith, length-drop g s)) in
    hex_text-line g (q + 1) k next b s (omega (arith, start)) refl
    ∙ rw (separator_full (suc g) q k full (omega arith), later, join-tail (line (b ∷ take g s)) _)

-- In lines of `suc g` bytes, the text that the standard library makes is the text of the dump.
pub hex_text-std_format_hex : (g : ℕ) (s : Bytes) → hex_text (suc g) 0 s ≡ std_format_hex (suc g) s
unfolding std_format_hex
hex_text-std_format_hex g [] = refl
hex_text-std_format_hex g (b ∷ s) =
    let next = 0 + 1 + length (take g s) in
    let later =
      hex_text-tail g 0 (length s) next (drop g s)
        (λ more. omega (arith, length-take g s, length-drop g s, more))
        (omega (arith, length-drop g s)) in
    hex_text-line g 0 0 next b s (omega arith) refl ∙ rw (later, join-tail (line (b ∷ take g s)) _)

cycling-All : (count first : ℕ) → All (λ b. b < 256) (cycling count first)
unfolding cycling
cycling-All zero first = tt
cycling-All (suc count) first = (omega arith, cycling-All count (first + 1))

length-cycling : (count first : ℕ) → length (cycling count first) ≡ count
unfolding cycling
length-cycling zero first = refl
length-cycling (suc count) first = omega (arith, length-cycling count (first + 1))

-- With a group above 0, bytes below 256, and a capacity below 2^63 of at least 1 and three times
-- the number of the bytes, `fast_format_hex` and `dump_as_hex` without a limit of lines make the
-- text that the benchmark makes with the `chunks`, `format!` and `join` of the standard library,
-- at that length of a line.
pub fast_format_hex-std_format_hex :
    (N group : ℕ) (bytes : Bytes)
    → 0 < N
    → N < 2 ^ 63
    → 0 < group
    → All (λ b. b < 256) bytes
    → 3 * length bytes ≤ N
    → (fast_format_hex N bytes group none
        ≡ ok (record { bytes = pad N (std_format_hex group bytes) }))
      × (dump_as_hex bytes group none ≡ ok (std_format_hex group bytes))
fast_format_hex-std_format_hex N group bytes pos small hg hb room =
    let e : suc (group - 1) ≡ group = omega arith in
    let same : hex_text group 0 bytes ≡ std_format_hex group bytes =
      rw e at (hex_text-std_format_hex (group - 1) bytes) in
    let fits : length (hex_text group 0 bytes) ≤ N = omega (arith, length-hex_text group 0 bytes) in
    (
      rw same at (fast_format_hex_lem N bytes group none pos small hg hb fits),
      rw same at (dump_as_hex_lem bytes group none hg hb),
    )

-- The two benchmarks make the same text.
bench_fast_format_hex-bench_std_format_hex :
    bench_fast_format_hex ≡ ok (record { bytes = pad 4096 bench_std_format_hex })
unfolding bench_fast_format_hex bench_std_format_hex generate_input
bench_fast_format_hex-bench_std_format_hex =
    (fast_format_hex-std_format_hex 4096 16 (cycling 1024 0) (omega arith) (omega arith)
      (omega arith) (cycling-All 1024 0) (omega (arith, length-cycling 1024 0))).0
