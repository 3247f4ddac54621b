-- ===== src/Buffer.antt =====
-- src/fs_buffer.rs: the builder `FixedStrBuf<N>` and its conversions. A method on `&mut self`
-- returns the state that it leaves and how the call ended.
pub mod View
pub mod Lossy
pub mod Char
pub mod Push
pub mod Cut
pub mod Finish
pub mod Each
pub mod Shorter
pub mod History
pub mod Clean
pub mod Machine
pub mod Runs
use fixed_str.Common.{
  ℕ, zero, suc, ◌+◌, ◌-◌, Bool, true, false, not, List, [], ◌∷◌, ltb, leb, ◌==◌, if◌then◌else◌,
  length,
}
use fixed_str.Error.{Outcome, ok, err, panic, overflow, ◌>>=◌, ◌>>◌}
use fixed_str.Utf8.{Bytes, from_utf8, encode_utf8}
use fixed_str.Utf8.Lossy.{from_utf8_lossy}
use fixed_str.Slice.{write, copy_from_slice, fill_zero, zeros}
use fixed_str.Helpers.{find_first_null, exact, copy_into_buffer, panic_on_zero, truncate_utf8_lossy}
use fixed_str.EffectiveBytes.{effective_bytes}
use fixed_str.Core
use fixed_str.Core.{FixedStr}

-- `FixedStrBuf`
pub record FixedStrBuf (N : ℕ) : Type 0 where
  pub buffer : Bytes
  pub len : ℕ

-- A call on `&mut self`: a value brings the new state with it, an error or a panic leaves the old.
abbrev pub commit {ℓ} :
    {N : ℕ} {A : Type ℓ} → FixedStrBuf N → Outcome (FixedStrBuf N × A) → FixedStrBuf N × Outcome A
commit b (ok (b', a)) = (b', ok a)
commit b (err e) = (b, err e)
commit b panic = (b, panic)

unfoldable pub capacity : {N : ℕ} → FixedStrBuf N → ℕ
capacity {N} b = N

-- `N - self.len`, which panics if it is negative.
unfoldable pub remaining : {N : ℕ} → FixedStrBuf N → Outcome ℕ
remaining {N} b = if leb b.len N then ok (N - b.len) else panic

unfoldable pub is_empty : {N : ℕ} → FixedStrBuf N → Bool
is_empty b = b.len == 0

unfoldable pub new : (N : ℕ) → Outcome (FixedStrBuf N)
new N = panic_on_zero N >> ok (record { buffer = zeros N; len = 0 })

unfoldable pub try_as_str : {N : ℕ} → FixedStrBuf N → Outcome Bytes
try_as_str b = from_utf8 (effective_bytes b.buffer)

-- `self.buffer[self.len..self.len + bytes.len()].copy_from_slice(bytes); self.len += bytes.len()`
unfoldable pub append : {N : ℕ} → FixedStrBuf N → Bytes → Outcome (FixedStrBuf N)
append b bytes = copy_from_slice b.buffer b.len (b.len + length bytes) bytes >>= λ buffer.
    ok (record { buffer = buffer; len = b.len + length bytes })

unfoldable pub try_push_str : {N : ℕ} → FixedStrBuf N → Bytes → FixedStrBuf N × Outcome (Unit {0})
try_push_str b s =
    let bytes = effective_bytes s in
    commit b (
      remaining b >>= λ room.
      if ltb room (length bytes)
      then err (overflow room (length bytes))
      else (append b bytes >>= λ b'. ok (b', tt)))

unfoldable pub try_push_char : {N : ℕ} → FixedStrBuf N → ℕ → FixedStrBuf N × Outcome (Unit {0})
try_push_char b c = try_push_str b (encode_utf8 c)

unfoldable pub push_str_lossy : {N : ℕ} → FixedStrBuf N → Bytes → FixedStrBuf N × Outcome Bool
push_str_lossy b s = commit b (do
  room ← remaining b
  valid ← if ltb room (length s) then truncate_utf8_lossy s room else ok s
  b' ← if not (length valid == 0) then append b valid else ok b
  ok (b', length valid == length s))

unfoldable pub finalize : {N : ℕ} → FixedStrBuf N → Outcome (FixedStr N)
finalize {N} b = fill_zero b.buffer b.len N >>= Core.from_bytes N

unfoldable pub finalize_unsafe : {N : ℕ} → FixedStrBuf N → Outcome (FixedStr N)
finalize_unsafe {N} b = fill_zero b.buffer b.len N >>= Core.from_bytes_unsafe N

unfoldable pub clear : {N : ℕ} → FixedStrBuf N → FixedStrBuf N
clear {N} b = record { buffer = zeros N; len = 0 }

-- The loop `for i in new_len..self.len` of `truncate`, with `count` rounds left.
unfoldable pub zero_loop : ℕ → ℕ → Bytes → Outcome Bytes
zero_loop zero i buffer = ok buffer
zero_loop (suc count) i buffer = write buffer i 0 >>= zero_loop count (i + 1)

unfoldable pub truncate : {N : ℕ} → FixedStrBuf N → ℕ → FixedStrBuf N × Outcome (Unit {0})
truncate b new_len =
    if ltb new_len b.len
    then commit b (
        zero_loop (b.len - new_len) new_len b.buffer >>= λ buffer.
        ok (record { buffer = buffer; len = new_len }, tt))
    else (b, ok tt)

unfoldable pub to_string_lossy : {N : ℕ} → FixedStrBuf N → Bytes
to_string_lossy b = from_utf8_lossy (effective_bytes b.buffer)

-- `Default`
unfoldable pub default : (N : ℕ) → FixedStrBuf N
default N = record { buffer = zeros N; len = 0 }

-- `From<FixedStr<N>>`
unfoldable pub from_fixed : {N : ℕ} → FixedStr N → FixedStrBuf N
from_fixed fs = record { buffer = fs.bytes; len = Core.len fs }

-- `TryFrom<&[u8]>`
unfoldable pub try_from : (N : ℕ) → Bytes → Outcome (FixedStrBuf N)
try_from N s = do
  buf ← copy_into_buffer N s exact
  ok (record { buffer = buf; len = find_first_null buf })

-- `IntoIterator`: the whole array.
unfoldable pub into_iter : {N : ℕ} → FixedStrBuf N → Bytes
into_iter b = b.buffer
