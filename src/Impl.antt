-- ===== src/Impl.antt =====
-- src/fs_impl.rs, and the comparisons of src/fs_buffer.rs: the traits of both types. Two bytes
-- slices are compared by their bytes, and so is what derefs to one.
pub mod Order
pub mod Equal
pub mod Borrow
pub mod Chars
pub mod Visible
pub mod Convert
pub mod Agree
pub mod Strict
pub mod Both
pub mod Loss
pub mod Piecewise
pub mod Histories
use Prim.Native.Nat.{compare, Ordering, eq, lt, gt}
use fixed_str.Common.{
  ℕ, zero, suc, Bool, true, false, ◌&&◌, Option, none, some, List, [], ◌∷◌, ◌==◌, if◌then◌else◌,
}
use fixed_str.Error.{Outcome, ok, err, panic, invalid_utf8, ◌>>=◌}
use fixed_str.Utf8.{Bytes}
use fixed_str.Slice.{zeros}
use fixed_str.Helpers.{exact, copy_into_buffer}
use fixed_str.EffectiveBytes.{effective_bytes, EffectiveBytesIter}
use fixed_str.Core.{FixedStr, Call, write_byte, content, len, is_valid, new, as_str, into_string}
use fixed_str.Buffer
use fixed_str.Buffer.{FixedStrBuf}

-- `==` on byte slices
unfoldable pub bytes_eq : Bytes → Bytes → Bool
bytes_eq [] [] = true
bytes_eq [] (b ∷ t) = false
bytes_eq (a ∷ s) [] = false
bytes_eq (a ∷ s) (b ∷ t) = (a == b) && bytes_eq s t

-- `cmp` on byte slices
unfoldable pub bytes_cmp : Bytes → Bytes → Ordering
bytes_cmp [] [] = eq
bytes_cmp [] (b ∷ t) = lt
bytes_cmp (a ∷ s) [] = gt
bytes_cmp (a ∷ s) (b ∷ t) = elim (compare a b) [
  | Ordering.lt ↦ lt
  | Ordering.eq ↦ bytes_cmp s t
  | Ordering.gt ↦ gt
]

abbrev pub buf_content : {N : ℕ} → FixedStrBuf N → Bytes
buf_content b = effective_bytes b.buffer

-- The derived `PartialEq` of `FixedStr`: the whole arrays.
unfoldable pub derived_eq : {N : ℕ} → FixedStr N → FixedStr N → Bool
derived_eq a b = bytes_eq a.bytes b.bytes

-- The derived `PartialEq` of `FixedStrBuf`.
unfoldable pub buf_derived_eq : {N : ℕ} → FixedStrBuf N → FixedStrBuf N → Bool
buf_derived_eq a b = bytes_eq a.buffer b.buffer && (a.len == b.len)

unfoldable pub cmp : {N : ℕ} → FixedStr N → FixedStr N → Ordering
cmp a b = bytes_cmp (content a) (content b)

unfoldable pub partial_cmp : {N : ℕ} → FixedStr N → FixedStr N → Option Ordering
unfolding cmp
partial_cmp a b = some (cmp a b)

unfoldable pub buf_cmp : {N : ℕ} → FixedStrBuf N → FixedStrBuf N → Ordering
buf_cmp a b = bytes_cmp (buf_content a) (buf_content b)

unfoldable pub buf_partial_cmp : {N : ℕ} → FixedStrBuf N → FixedStrBuf N → Option Ordering
unfolding buf_cmp
buf_partial_cmp a b = some (buf_cmp a b)

-- `Hash`: the hasher's own `hash` of a byte slice is a parameter.
unfoldable pub hash {ℓ} : {H : Type ℓ} {N : ℕ} → (Bytes → H → H) → FixedStr N → H → H
hash hash_slice fs state = hash_slice (content fs) state

unfoldable pub buf_hash {ℓ} : {H : Type ℓ} {N : ℕ} → (Bytes → H → H) → FixedStrBuf N → H → H
buf_hash hash_slice b state = hash_slice (buf_content b) state

-- `FixedStr` with `&str`, and the other way round.
unfoldable pub eq_str : {N : ℕ} → FixedStr N → Bytes → Bool
eq_str fs other = bytes_eq (content fs) (effective_bytes other)

unfoldable pub str_eq : {N : ℕ} → Bytes → FixedStr N → Bool
str_eq other fs = bytes_eq (effective_bytes other) (content fs)

-- `FixedStr` with `[u8]`, and the other way round.
unfoldable pub eq_slice : {N : ℕ} → FixedStr N → Bytes → Bool
eq_slice fs other = bytes_eq (content fs) (effective_bytes other)

unfoldable pub slice_eq : {N : ℕ} → Bytes → FixedStr N → Bool
slice_eq other fs = bytes_eq (effective_bytes other) (content fs)

-- `FixedStr` with `&[u8]`, and the other way round.
unfoldable pub eq_slice_ref : {N : ℕ} → FixedStr N → Bytes → Bool
eq_slice_ref fs other = bytes_eq (content fs) (effective_bytes other)

unfoldable pub slice_ref_eq : {N : ℕ} → Bytes → FixedStr N → Bool
slice_ref_eq other fs = bytes_eq (effective_bytes other) (content fs)

-- `FixedStr` with `[u8; N]`, and the other way round.
unfoldable pub eq_array : {N : ℕ} → FixedStr N → Bytes → Bool
eq_array fs other = bytes_eq (content fs) (effective_bytes other)

unfoldable pub array_eq : {N : ℕ} → Bytes → FixedStr N → Bool
array_eq other fs = bytes_eq (effective_bytes other) (content fs)

-- `FixedStr` with `Vec<u8>`, and the other way round.
unfoldable pub eq_vec : {N : ℕ} → FixedStr N → Bytes → Bool
eq_vec fs other = bytes_eq (content fs) (effective_bytes other)

unfoldable pub vec_eq : {N : ℕ} → Bytes → FixedStr N → Bool
vec_eq other fs = bytes_eq (effective_bytes other) (content fs)

-- `FixedStr` with `String`, and the other way round.
unfoldable pub eq_string : {N : ℕ} → FixedStr N → Bytes → Bool
eq_string fs other = bytes_eq (content fs) (effective_bytes other)

unfoldable pub string_eq : {N : ℕ} → Bytes → FixedStr N → Bool
string_eq other fs = bytes_eq (effective_bytes other) (content fs)

-- `FixedStrBuf` with `[u8]`, and the other way round.
unfoldable pub buf_eq_slice : {N : ℕ} → FixedStrBuf N → Bytes → Bool
buf_eq_slice b other = bytes_eq (buf_content b) (effective_bytes other)

unfoldable pub slice_eq_buf : {N : ℕ} → Bytes → FixedStrBuf N → Bool
slice_eq_buf other b = bytes_eq (effective_bytes other) (buf_content b)

-- `FixedStrBuf` with `&[u8]`, and the other way round.
unfoldable pub buf_eq_slice_ref : {N : ℕ} → FixedStrBuf N → Bytes → Bool
buf_eq_slice_ref b other = bytes_eq (buf_content b) (effective_bytes other)

unfoldable pub slice_ref_eq_buf : {N : ℕ} → Bytes → FixedStrBuf N → Bool
slice_ref_eq_buf other b = bytes_eq (effective_bytes other) (buf_content b)

-- `FixedStrBuf` with `[u8; N]`, and the other way round.
unfoldable pub buf_eq_array : {N : ℕ} → FixedStrBuf N → Bytes → Bool
buf_eq_array b other = bytes_eq (buf_content b) (effective_bytes other)

unfoldable pub array_eq_buf : {N : ℕ} → Bytes → FixedStrBuf N → Bool
array_eq_buf other b = bytes_eq (effective_bytes other) (buf_content b)

-- `FixedStrBuf` with `Vec<u8>`, and the other way round.
unfoldable pub buf_eq_vec : {N : ℕ} → FixedStrBuf N → Bytes → Bool
buf_eq_vec b other = bytes_eq (buf_content b) (effective_bytes other)

unfoldable pub vec_eq_buf : {N : ℕ} → Bytes → FixedStrBuf N → Bool
vec_eq_buf other b = bytes_eq (effective_bytes other) (buf_content b)

-- `FixedStrBuf` with `FixedStr`, and the other way round.
unfoldable pub buf_eq_fixed : {N : ℕ} → FixedStrBuf N → FixedStr N → Bool
buf_eq_fixed b fs = bytes_eq (buf_content b) (content fs)

unfoldable pub fixed_eq_buf : {N : ℕ} → FixedStr N → FixedStrBuf N → Bool
fixed_eq_buf fs b = bytes_eq (content fs) (buf_content b)

-- `Default`
unfoldable pub default : (N : ℕ) → FixedStr N
default N = record { bytes = zeros N }

-- `Deref`: the whole array.
unfoldable pub deref : {N : ℕ} → FixedStr N → Bytes
deref fs = fs.bytes

-- `AsRef<[u8]>`
unfoldable pub as_ref : {N : ℕ} → FixedStr N → Bytes
as_ref fs = fs.bytes

-- `DerefMut`: a write through the slice, `fs[i] = b`.
unfoldable pub deref_mut : {N : ℕ} → FixedStr N → ℕ → ℕ → Call N (Unit {0})
deref_mut = write_byte

-- `AsRef<[u8]>` and `Deref` of the builder: the whole array.
unfoldable pub buf_as_ref : {N : ℕ} → FixedStrBuf N → Bytes
buf_as_ref b = b.buffer

unfoldable pub buf_deref : {N : ℕ} → FixedStrBuf N → Bytes
buf_deref b = b.buffer

-- `AsRef<str>` and `Borrow<str>`, and what `Display` writes.
unfoldable pub borrow : {N : ℕ} → FixedStr N → Outcome Bytes
borrow = as_str

-- `TryFrom<&[u8]>`
unfoldable pub try_from : (N : ℕ) → Bytes → Outcome (FixedStr N)
try_from N s = copy_into_buffer N (effective_bytes s) exact >>= λ buf.
    let result : FixedStr N = record { bytes = buf } in
    if is_valid result then ok result else err invalid_utf8

-- `From<&str>`
unfoldable pub from_str : (N : ℕ) → Bytes → Outcome (FixedStr N)
from_str = new

-- `From<String>`
unfoldable pub from_string : (N : ℕ) → Bytes → Outcome (FixedStr N)
from_string = new

-- `From<FixedStrBuf<N>>`
unfoldable pub from_buf : {N : ℕ} → FixedStrBuf N → Outcome (FixedStr N)
from_buf = Buffer.finalize

-- `From<FixedStr<N>>` for `String`
unfoldable pub to_owned_string : {N : ℕ} → FixedStr N → Outcome Bytes
to_owned_string = into_string

-- `IntoIterator`
unfoldable pub into_iter : {N : ℕ} → FixedStr N → EffectiveBytesIter
into_iter fs = record { bytes = fs.bytes; index = 0; len = len fs }
