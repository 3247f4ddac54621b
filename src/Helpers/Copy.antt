-- ===== src/Helpers/Copy.antt =====
-- `copy_into_buffer` in each mode, against the padded list that it should give.
use fixed_str.Common.{
  ℕ, ◌-◌, ◌≤◌, ◌<◌, ◌≡◌, refl, min, ◌++◌, length, take, arith, take_all, length-append, length-take,
  lt→ltb, leb, if◌then◌else◌, le→leb, lt→leb,
}
use fixed_str.Error.{ok, err, panic, overflow}
use fixed_str.Utf8.{Bytes, IsUtf8}
use native.Mathlib.Decide.{dec_lt}
use fixed_str.Slice.{
  length-zeros, drop-zeros, zeros, slice_to_lem, copy_from_slice_lem, Returns, Returns→ok,
  Returns-ok,
}
use fixed_str.Helpers.{
  BufferCopyMode, exact, slice, truncate, panic_on_zero, copied_len, copy_into_buffer,
  find_first_null, find_valid_utf8_len,
}
use fixed_str.Helpers.Null.{find_first_null-le}
use fixed_str.Helpers.Search.{IsSlice, IsCut, find_valid_utf8_len-IsCut, find_valid_utf8_len_valid}

-- The abstract content of a buffer: the bytes, null-padded to the capacity.
abbrev pub pad : ℕ → Bytes → Bytes
pad n s = s ++ zeros (n - length s)

pub length-pad : (n : ℕ) (s : Bytes) → length s ≤ n → length (pad n s) ≡ n
length-pad n s h =
    omega (arith, length-append s (zeros (n - length s)), length-zeros (n - length s))

-- The write, once the length is known.
copy_of_len :
    (n : ℕ) (src : Bytes) (mode : BufferCopyMode) (len : ℕ)
    → 0 < n
    → copied_len mode n src ≡ ok len
    → len ≤ length src
    → len ≤ n
    → copy_into_buffer n src mode ≡ ok (pad n (take len src))
unfolding copy_into_buffer panic_on_zero
copy_of_len n src mode len pos e fits room =
    let part : length (take len src) ≡ len = omega (arith, length-take len src) in
    rw (
      lt→ltb 0 n pos,
      e,
      slice_to_lem len src fits,
      copy_from_slice_lem (zeros n) (take len src) 0 len (omega arith)
          (omega (arith, length-zeros n)),
      drop-zeros n len (n - len) refl,
      part,
    )

-- No buffer has zero bytes.
pub copy_into_buffer_zero :
    (src : Bytes) (mode : BufferCopyMode) → copy_into_buffer 0 src mode ≡ panic
unfolding copy_into_buffer panic_on_zero
copy_into_buffer_zero src mode = refl

pub copy_into_buffer_exact :
    (n : ℕ) (src : Bytes) → 0 < n → length src ≤ n → copy_into_buffer n src exact ≡ ok (pad n src)
unfolding copied_len
copy_into_buffer_exact n src pos fits =
    rw (copy_of_len n src exact (length src) pos (ground arith) (omega arith) fits)
      (rw (take_all (length src) src (omega arith)))

pub copy_into_buffer_overflow :
    (n : ℕ) (src : Bytes)
    → 0 < n
    → n < length src
    → copy_into_buffer n src exact ≡ err (overflow n (length src))
unfolding copy_into_buffer copied_len panic_on_zero
copy_into_buffer_overflow n src pos big = ground arith

take-min : (n : ℕ) (src : Bytes) → take (min (length src) n) src ≡ take n src
take-min n src = elim (dec_lt n (length src)) [
  | yes more ↦ let e : min (length src) n ≡ n = omega arith in rw e
  | no few ↦
      let e : min (length src) n ≡ length src = omega arith in
      rw (e, take_all (length src) src (omega arith), take_all n src (omega arith))
]

pub copy_into_buffer_slice :
    (n : ℕ) (src : Bytes) → 0 < n → copy_into_buffer n src slice ≡ ok (pad n (take n src))
unfolding copied_len
copy_into_buffer_slice n src pos =
    rw (copy_of_len n src slice (min (length src) n) pos refl (omega arith) (omega arith))
      (rw (take-min n src))

-- In the mode `truncate` the copied bytes are a prefix as `IsCut` says.
abbrev pub IsTruncated : ℕ → Bytes → Bytes → Type 0
IsTruncated n src buf =
    (len : ℕ) × IsCut src (min n (find_first_null src)) len × (buf ≡ pad n (take len src))

pub copy_into_buffer-truncate :
    (n : ℕ) (src : Bytes)
    → 0 < n
    → IsSlice src
    → Returns (copy_into_buffer n src truncate) (IsTruncated n src)
unfolding copied_len
copy_into_buffer-truncate n src pos small =
    let (len, e, cut) = Returns→ok _ (IsCut src _) (find_valid_utf8_len-IsCut src n small) in
    Returns-ok _ (IsTruncated n src) (pad n (take len src))
      (copy_of_len n src truncate len pos e (omega (arith, cut.within, find_first_null-le src))
        (omega (arith, cut.within)))
      (len, cut, refl)

-- The copy that a given result of the search leads to.
pub copy_into_buffer-truncate_at :
    (n : ℕ) (src : Bytes) (len : ℕ)
    → 0 < n
    → find_valid_utf8_len src n ≡ ok len
    → len ≤ length src
    → len ≤ n
    → copy_into_buffer n src truncate ≡ ok (pad n (take len src))
unfolding copied_len
copy_into_buffer-truncate_at n src len pos e = copy_of_len n src truncate len pos e

pub copy_into_buffer-truncate_valid :
    (n : ℕ) (src : Bytes) (len : ℕ)
    → 0 < n
    → len ≡ min n (find_first_null src)
    → IsUtf8 (take len src)
    → copy_into_buffer n src truncate ≡ ok (pad n (take len src))
unfolding copied_len
copy_into_buffer-truncate_valid n src len pos e valid =
    copy_of_len n src truncate len pos (find_valid_utf8_len_valid src n len e valid)
      (omega (arith, find_first_null-le src)) (omega arith)

-- Each mode of `copy_into_buffer`, at a capacity above 0 and for a source shorter than 2^63:
-- `exact` copies a source that fits and reports any other, `slice` copies the first `n` bytes, and
-- `truncate` copies a valid prefix of the source up to its first null, ended as `IsCut` says. The
-- rest of the buffer is null.
pub copy_into_buffer_modes :
    (n : ℕ) (src : Bytes)
    → 0 < n
    → IsSlice src
    → (copy_into_buffer n src exact
        ≡ (if leb (length src) n then ok (pad n src) else err (overflow n (length src))))
      × (copy_into_buffer n src slice ≡ ok (pad n (take n src)))
      × Returns (copy_into_buffer n src truncate) (IsTruncated n src)
copy_into_buffer_modes n src pos small = elim (dec_lt n (length src)) [
  | yes big ↦ (
    rw (lt→leb (length src) n big, copy_into_buffer_overflow n src pos big) refl,
    copy_into_buffer_slice n src pos,
    copy_into_buffer-truncate n src pos small,
  )
  | no fits ↦ (
    rw (le→leb (length src) n (omega arith), copy_into_buffer_exact n src pos (omega arith)) refl,
    copy_into_buffer_slice n src pos,
    copy_into_buffer-truncate n src pos small,
  )
]
