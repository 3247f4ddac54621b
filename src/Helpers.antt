-- ===== src/Helpers.antt =====
-- src/string_helpers.rs: the null scan, the two searches for a UTF-8 boundary, and the copy into a
-- fixed-size buffer. `[u8; N]` is a list of bytes; `N` is passed where the source infers it.
pub mod Null
pub mod Search
pub mod Largest
pub mod Kept
pub mod Agree
pub mod Copy
pub mod Chars
pub mod Boundary
pub mod Wide
pub mod Fit
pub mod Rounds
use fixed_str.Common.{
  ℕ, zero, suc, ◌+◌, ◌-◌, ◌/◌, ◌%◌, ◌^◌, ◌≤◌, ◌<◌, ◌≡◌, refl, min, bit_and, Bool, true, false, ◌&&◌,
  Option, none, some, List, [], ◌∷◌, ◌++◌, ltb, leb, ◌==◌, if◌then◌else◌, length, take, drop,
  replicate, get_elem?, arith,
}
use mathlib.Core.Option
use fixed_str.Error.{Outcome, ok, err, panic, overflow, ◌>>=◌, ◌>>◌}
use fixed_str.Utf8.{Bytes, is_utf8}
use fixed_str.Slice.{slice_to, index, copy_from_slice, zeros}

-- `BufferCopyMode`
pub data BufferCopyMode : Type 0 where
  exact slice truncate : BufferCopyMode

-- `panic_on_zero`
unfoldable pub panic_on_zero : ℕ → Outcome (Unit {0})
panic_on_zero n = if ltb 0 n then ok tt else panic

-- `iter().position(p)`
abbrev pub position : (ℕ → Bool) → Bytes → Option ℕ
position p [] = none
position p (b ∷ s) = if p b then some 0 else Option.map suc (position p s)

-- `find_first_null`, built without the feature `memchr`
unfoldable pub find_first_null : Bytes → ℕ
find_first_null bytes = Option.get_or (position (λ b. b == 0) bytes) (length bytes)

-- `find_first_null`, built with it: the third-party `memchr` is a parameter.
unfoldable pub find_first_null_memchr : (ℕ → Bytes → Option ℕ) → Bytes → ℕ
find_first_null_memchr memchr bytes = Option.get_or (memchr 0 bytes) (length bytes)

abbrev pub usize_mod : ℕ
usize_mod = 2 ^ 64

-- The loop `while low < high` of `find_valid_utf8_len`, with `low + high + 1` in 64-bit arithmetic.
-- The fuel counts its rounds; running out of it is reported as a panic.
unfoldable pub search_loop : ℕ → Bytes → ℕ → ℕ → Outcome ℕ
search_loop zero bytes low high = panic
search_loop (suc fuel) bytes low high =
    let mid = (low + high + 1) % usize_mod / 2 in
    let round = slice_to mid bytes >>= λ prefix. elim (is_utf8 prefix) [
      | true ↦ search_loop fuel bytes mid high
      | false ↦ search_loop fuel bytes low (mid - 1)
    ] in
    if ltb low high then round else ok low

-- `find_valid_utf8_len`
unfoldable pub find_valid_utf8_len : Bytes → ℕ → Outcome ℕ
find_valid_utf8_len bytes max_len =
    let effective = find_first_null bytes in
    let upper = min max_len effective in
    do
      prefix ← slice_to upper bytes
      if is_utf8 prefix then ok upper else search_loop (suc upper) bytes 0 upper

-- `truncate_utf8_lossy`
unfoldable pub truncate_utf8_lossy : Bytes → ℕ → Outcome Bytes
truncate_utf8_lossy bytes max_len = do
  valid_len ← find_valid_utf8_len bytes max_len
  slice_to valid_len bytes

-- The `match mode` of `copy_into_buffer`, at capacity `n`.
unfoldable pub copied_len : BufferCopyMode → ℕ → Bytes → Outcome ℕ
copied_len exact n src =
    if ltb n (length src) then err (overflow n (length src)) else ok (length src)
copied_len slice n src = ok (min (length src) n)
copied_len truncate n src = find_valid_utf8_len src n

-- `copy_into_buffer`
unfoldable pub copy_into_buffer : ℕ → Bytes → BufferCopyMode → Outcome Bytes
copy_into_buffer n src mode = do
  panic_on_zero n
  len ← copied_len mode n src
  part ← slice_to len src
  copy_from_slice (zeros n) 0 len part

-- `width` in `find_valid_boundary`; `none` is its `break`.
unfoldable pub lead_width : ℕ → Option ℕ
lead_width first =
    if bit_and first 0x80 == 0
    then some 1
    else if bit_and first 0xe0 == 0xc0
    then some 2
    else if bit_and first 0xf0 == 0xe0
    then some 3
    else if bit_and first 0xf8 == 0xf0
    then some 4
    else none

-- The inner loop of `find_valid_boundary`: `j` after at most `count` continuation bytes.
unfoldable pub skip_continuation : ℕ → Bytes → ℕ → Outcome ℕ
skip_continuation zero bytes j = ok j
skip_continuation (suc count) bytes j = index bytes j >>= λ b. elim (bit_and b 0xc0 == 0x80) [
  | true ↦ skip_continuation count bytes (j + 1)
  | false ↦ ok j
]

-- The outer loop: `some i'` is the next round's `i` (and `last_valid`), `none` a `break`.
unfoldable pub next_boundary : Bytes → ℕ → ℕ → Outcome (Option ℕ)
next_boundary bytes max_len i = do
  first ← index bytes i
  elim (lead_width first) [
    | none ↦ ok none
    | some width ↦
        if ltb (length bytes) (i + width)
        then ok none
        else (skip_continuation (width - 1) bytes (i + 1) >>= λ j.
            if ltb j (i + width)
            then ok none
            else if ltb max_len (i + width)
            then ok none
            else ok (some (i + width)))
  ]

unfoldable pub boundary_loop : ℕ → Bytes → ℕ → ℕ → ℕ → Outcome ℕ
boundary_loop zero bytes max_len i last_valid = panic
boundary_loop (suc fuel) bytes max_len i last_valid =
    let round = next_boundary bytes max_len i >>= λ next. elim next [
      | none ↦ ok last_valid
      | some i' ↦ boundary_loop fuel bytes max_len i' i'
    ] in
    if ltb i (length bytes) then round else ok last_valid

-- `find_valid_boundary`; each round moves `i` on by at least one byte.
unfoldable pub find_valid_boundary : Bytes → ℕ → Outcome ℕ
find_valid_boundary bytes max_len = boundary_loop (suc (length bytes)) bytes max_len 0 0
