-- ===== src/Core.antt =====
-- src/fs_core.rs: `FixedStr<N>`, its constructors, modifiers and accessors. A method on `&mut self`
-- returns the state that it leaves and how the call ended.
pub mod Access
pub mod Construct
pub mod Const
pub mod Fit
pub mod Lossy
pub mod Loss
pub mod Modify
pub mod History
pub mod Machine
pub mod Runs
pub mod Tidy
use fixed_str.Common.{
  ℕ, zero, suc, ◌+◌, ◌≡◌, refl, Bool, true, false, ◌&&◌, List, [], ◌∷◌, ltb, ◌==◌, if◌then◌else◌,
  length,
}
use fixed_str.Error.{Outcome, ok, err, panic, ◌>>=◌, ◌>>◌, unwrap}
use fixed_str.Utf8.{Bytes, from_utf8}
use fixed_str.Utf8.Lossy.{from_utf8_lossy}
use fixed_str.Slice.{slice_to, index, write, fill_zero, zeros}
use fixed_str.Helpers.{
  find_first_null, exact, slice, truncate as truncating, copy_into_buffer, panic_on_zero,
  find_valid_boundary, truncate_utf8_lossy,
}
use fixed_str.EffectiveBytes.{effective_bytes}

-- `FixedStr`, with its field `data`.
pub record FixedStr (N : ℕ) : Type 0 where
  pub bytes : Bytes

-- The state after a call on `&mut self`, and how the call ended.
abbrev pub Call {ℓ} : ℕ → Type ℓ → Type ℓ
Call N A = FixedStr N × Outcome A

unfoldable pub capacity : {N : ℕ} → FixedStr N → ℕ
capacity {N} fs = N

unfoldable pub len : {N : ℕ} → FixedStr N → ℕ
len fs = find_first_null fs.bytes

unfoldable pub is_empty : {N : ℕ} → FixedStr N → Bool
unfolding len
is_empty fs = len fs == 0

-- `effective_bytes` through `Deref`
abbrev pub content : {N : ℕ} → FixedStr N → Bytes
content fs = effective_bytes fs.bytes

unfoldable pub try_as_str : {N : ℕ} → FixedStr N → Outcome Bytes
try_as_str fs = from_utf8 (content fs)

abbrev is_ok {ℓ} : {A : Type ℓ} → Outcome A → Bool
is_ok (ok a) = true
is_ok _ = false

unfoldable pub is_valid : {N : ℕ} → FixedStr N → Bool
unfolding try_as_str
is_valid fs = is_ok (try_as_str fs)

abbrev wrap : (N : ℕ) → Outcome Bytes → Outcome (FixedStr N)
wrap N buf = buf >>= λ b. ok (record { bytes = b })

unfoldable pub new : (N : ℕ) → Bytes → Outcome (FixedStr N)
new N input = wrap N (unwrap (copy_into_buffer N input truncating))

-- The loop `while i < N && i < len` of `new_const`.
unfoldable pub const_loop : ℕ → ℕ → ℕ → Bytes → ℕ → Bytes → Outcome Bytes
const_loop zero N len bytes i buf = panic
const_loop (suc fuel) N len bytes i buf =
    let round = do b ← index bytes i; buf' ← write buf i b; const_loop fuel N len bytes (i + 1) buf'
    in if ltb i N && ltb i len then round else ok buf

unfoldable pub new_const : (N : ℕ) → Bytes → Outcome (FixedStr N)
new_const N input = do
  panic_on_zero N
  len ← find_valid_boundary input N
  wrap N (const_loop (suc N) N len input 0 (zeros N))

unfoldable pub from_slice : (N : ℕ) → Bytes → Outcome (FixedStr N)
from_slice N input = wrap N (unwrap (copy_into_buffer N input truncating))

unfoldable pub from_slice_unsafe : (N : ℕ) → Bytes → Outcome (FixedStr N)
from_slice_unsafe N input = wrap N (unwrap (copy_into_buffer N input slice))

-- The argument is a `[u8; N]`: a list of length `N`.
unfoldable pub from_bytes : (N : ℕ) → Bytes → Outcome (FixedStr N)
from_bytes N bytes = wrap N (unwrap (copy_into_buffer N bytes truncating))

unfoldable pub from_bytes_unsafe : (N : ℕ) → Bytes → Outcome (FixedStr N)
from_bytes_unsafe N bytes = wrap N (unwrap (copy_into_buffer N bytes slice))

-- `self.data = buf?`: an error or a panic leaves the state alone.
abbrev assign : {N : ℕ} → FixedStr N → Outcome Bytes → Call N (Unit {0})
assign fs (ok buf) = (record { bytes = buf }, ok tt)
assign fs (err e) = (fs, err e)
assign fs panic = (fs, panic)

unfoldable pub set : {N : ℕ} → FixedStr N → Bytes → Call N (Unit {0})
set {N} fs input = assign fs (copy_into_buffer N (effective_bytes input) exact)

unfoldable pub set_lossy : {N : ℕ} → FixedStr N → Bytes → Call N (Unit {0})
set_lossy {N} fs input = assign fs (unwrap (copy_into_buffer N (effective_bytes input) truncating))

unfoldable pub clear : {N : ℕ} → FixedStr N → FixedStr N
clear {N} fs = record { bytes = zeros N }

unfoldable pub truncate : {N : ℕ} → FixedStr N → ℕ → Call N (Unit {0})
unfolding len
truncate {N} fs new_len =
    if ltb new_len (len fs) then assign fs (fill_zero fs.bytes new_len N) else (fs, ok tt)

unfoldable pub as_str : {N : ℕ} → FixedStr N → Outcome Bytes
as_str {N} fs = truncate_utf8_lossy fs.bytes N

-- `as_bytes`, and `byte_iter`, which yields the whole array.
unfoldable pub as_bytes : {N : ℕ} → FixedStr N → Bytes
as_bytes fs = fs.bytes

unfoldable pub byte_iter : {N : ℕ} → FixedStr N → Bytes
byte_iter fs = fs.bytes

-- A write through the slice of `as_mut_bytes`, or through `DerefMut`: `fs[i] = b`.
unfoldable pub write_byte : {N : ℕ} → FixedStr N → ℕ → ℕ → Call N (Unit {0})
write_byte fs i b = assign fs (write fs.bytes i b)

unfoldable pub into_string : {N : ℕ} → FixedStr N → Outcome Bytes
into_string = as_str

unfoldable pub try_into_string : {N : ℕ} → FixedStr N → Outcome Bytes
try_into_string = try_as_str

-- `String::from_utf8_lossy(&self.data[..self.len()])`
unfoldable pub to_string_lossy : {N : ℕ} → FixedStr N → Outcome Bytes
to_string_lossy fs = slice_to (len fs) fs.bytes >>= λ s. ok (from_utf8_lossy s)
