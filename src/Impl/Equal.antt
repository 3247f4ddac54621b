-- ===== src/Impl/Equal.antt =====
-- `==` on both types, of src/fs_impl.rs and src/fs_buffer.rs, against their contents.
use Prim.Native.Nat.{eq}
use fixed_str.Common.{
  ℕ, ◌≡◌, ◌≢◌, ◌↔◌, refl, ap, ◌∙◌, true, false, [], ◌∷◌, ◌++◌, arith, Bool-cases, append_cancel,
  inl, inr, ==_iff,
}
use fixed_str.Utf8.{Bytes}
use fixed_str.Helpers.Null.{NoNull}
use fixed_str.EffectiveBytes.{effective_bytes}
use fixed_str.Core.{FixedStr, content}
use fixed_str.Core.Access.{IsFixedStr}
use fixed_str.Buffer.{FixedStrBuf}
use fixed_str.Buffer.Finish.{stale, content-stale}
use fixed_str.Impl.{
  bytes_eq, cmp, derived_eq, buf_content, eq_str, str_eq, eq_slice, slice_eq, eq_slice_ref,
  slice_ref_eq, eq_array, array_eq, eq_vec, vec_eq, eq_string, string_eq, buf_eq_fixed,
  fixed_eq_buf, buf_derived_eq, buf_eq_slice, slice_eq_buf, buf_eq_slice_ref, slice_ref_eq_buf,
  buf_eq_array, array_eq_buf, buf_eq_vec, vec_eq_buf,
}
use fixed_str.Impl.Order.{bytes_cmp_refl}

pub bytes_eq_refl : (s : Bytes) → bytes_eq s s ≡ true
unfolding bytes_eq
bytes_eq_refl [] = refl
bytes_eq_refl (a ∷ s) = rw ((==_iff a a).1 refl) (bytes_eq_refl s)

pub bytes_eq_sound : (s t : Bytes) → bytes_eq s t ≡ true → s ≡ t
unfolding bytes_eq
bytes_eq_sound [] [] h = refl
bytes_eq_sound [] (b ∷ t) h = cc
bytes_eq_sound (a ∷ s) [] h = cc
bytes_eq_sound (a ∷ s) (b ∷ t) h = ground (arith, bytes_eq_sound s t)

pub bytes_eq_iff : (s t : Bytes) → (bytes_eq s t ≡ true) ↔ (s ≡ t)
bytes_eq_iff s t = (bytes_eq_sound s t, λ e. rw e (bytes_eq_refl t))

pub bytes_eq_comm : (s t : Bytes) → bytes_eq s t ≡ bytes_eq t s
unfolding bytes_eq
bytes_eq_comm [] [] = refl
bytes_eq_comm [] (b ∷ t) = refl
bytes_eq_comm (a ∷ s) [] = refl
bytes_eq_comm (a ∷ s) (b ∷ t) = ground (arith, bytes_eq_comm s t)

buf_derived_eq_iff : {N : ℕ} (b c : FixedStrBuf N) → (buf_derived_eq b c ≡ true) ↔ (b ≡ c)
unfolding buf_derived_eq
buf_derived_eq_iff b c = (
  λ h. sound (ground arith) (ground arith),
  λ e. rw (e, bytes_eq_refl c.buffer, (==_iff c.len c.len).1 refl) refl,
)
  where
    sound : bytes_eq b.buffer c.buffer ≡ true → b.len ≡ c.len → b ≡ c
    sound same size =
        ap (λ buffer. record b { buffer = buffer }) (bytes_eq_sound b.buffer c.buffer same)
        ∙ ap (λ len. record c { len = len }) size

-- The comparisons of a value with slices of bytes and strings look at the effective bytes.
abbrev pub IsAlike : {N : ℕ} → FixedStr N → Bytes → Type 0
IsAlike fs other =
    ((eq_str fs other ≡ true) ↔ (content fs ≡ effective_bytes other))
    × (str_eq other fs ≡ eq_str fs other)
    × (eq_slice fs other ≡ eq_str fs other)
    × (slice_eq other fs ≡ eq_str fs other)
    × (eq_slice_ref fs other ≡ eq_str fs other)
    × (slice_ref_eq other fs ≡ eq_str fs other)
    × (eq_array fs other ≡ eq_str fs other)
    × (array_eq other fs ≡ eq_str fs other)
    × (eq_vec fs other ≡ eq_str fs other)
    × (vec_eq other fs ≡ eq_str fs other)
    × (eq_string fs other ≡ eq_str fs other)
    × (string_eq other fs ≡ eq_str fs other)

-- A value equals a `&str` exactly where their effective bytes are the same, and the comparisons
-- with slices, arrays, vectors and strings, in either order of the arguments, give the same
-- answer.
pub mixed_eq-content : {N : ℕ} (fs : FixedStr N) (other : Bytes) → IsAlike fs other
unfolding eq_str str_eq eq_slice slice_eq eq_slice_ref slice_ref_eq eq_array array_eq eq_vec vec_eq
    eq_string string_eq
mixed_eq-content fs other =
    let flip = bytes_eq_comm (effective_bytes other) (content fs) in
    (
      bytes_eq_iff (content fs) (effective_bytes other),
      flip,
      refl,
      flip,
      refl,
      flip,
      refl,
      flip,
      refl,
      flip,
      refl,
      flip,
    )

-- The comparisons of a builder look at its effective bytes, and the derived one at all of it.
abbrev pub IsBufAlike : {N : ℕ} → FixedStrBuf N → FixedStrBuf N → FixedStr N → Bytes → Type 0
IsBufAlike b c fs other =
    ((buf_eq_slice b other ≡ true) ↔ (buf_content b ≡ effective_bytes other))
    × (slice_eq_buf other b ≡ buf_eq_slice b other)
    × (buf_eq_slice_ref b other ≡ buf_eq_slice b other)
    × (slice_ref_eq_buf other b ≡ buf_eq_slice b other)
    × (buf_eq_array b other ≡ buf_eq_slice b other)
    × (array_eq_buf other b ≡ buf_eq_slice b other)
    × (buf_eq_vec b other ≡ buf_eq_slice b other)
    × (vec_eq_buf other b ≡ buf_eq_slice b other)
    × ((fixed_eq_buf fs b ≡ true) ↔ (content fs ≡ buf_content b))
    × (buf_eq_fixed b fs ≡ fixed_eq_buf fs b)
    × ((buf_derived_eq b c ≡ true) ↔ (b ≡ c))

-- A builder equals a slice exactly where their effective bytes are the same, and the comparisons
-- with slices, arrays and vectors, in either order of the arguments, give the same answer. It
-- equals a value exactly where their effective bytes are the same, in either order, and the
-- derived `==` of builders says whether they are the same.
pub buf_eq-content :
    {N : ℕ} (b c : FixedStrBuf N) (fs : FixedStr N) (other : Bytes) → IsBufAlike b c fs other
unfolding buf_eq_slice slice_eq_buf buf_eq_slice_ref slice_ref_eq_buf buf_eq_array array_eq_buf
    buf_eq_vec vec_eq_buf fixed_eq_buf buf_eq_fixed
buf_eq-content b c fs other =
    let flip = bytes_eq_comm (effective_bytes other) (buf_content b) in
    (
      bytes_eq_iff (buf_content b) (effective_bytes other),
      flip,
      refl,
      flip,
      refl,
      flip,
      refl,
      flip,
      bytes_eq_iff (content fs) (buf_content b),
      bytes_eq_comm (buf_content b) (content fs),
      buf_derived_eq_iff b c,
    )

-- A value equals a `&str`, and a builder a slice, exactly where their effective bytes are the
-- same, and the comparisons with slices, arrays, vectors and strings, in either order of the
-- arguments, give the same answer. A builder equals a value exactly where their effective bytes
-- are the same, in either order, and the derived `==` of builders says whether they are the same.
pub mixed_eq-buf_eq :
    {N : ℕ} (fs : FixedStr N) (b c : FixedStrBuf N) (other : Bytes)
    → IsAlike fs other × IsBufAlike b c fs other
mixed_eq-buf_eq fs b c other = (mixed_eq-content fs other, buf_eq-content b c fs other)

-- Two well-formed values with the same content without nulls, a null, and different bytes behind
-- it are equal to `cmp` and not equal to the derived `==`.
pub cmp-derived_eq :
    (N : ℕ) (c s t : Bytes)
    → IsFixedStr {N = N} (stale c s)
    → IsFixedStr {N = N} (stale c t)
    → NoNull c
    → s ≢ t
    → (cmp {N = N} (stale c s) (stale c t) ≡ eq)
      × (derived_eq {N = N} (stale c s) (stale c t) ≡ false)
unfolding cmp derived_eq
cmp-derived_eq N c s t _ _ h ne = (
  rw (content-stale c s h, content-stale c t h) (bytes_cmp_refl c),
  elim (Bool-cases (bytes_eq (c ++ 0 ∷ s) (c ++ 0 ∷ t))) [
    | inr e ↦ e
    | inl e ↦ absurd (ne (behind (append_cancel c (0 ∷ s) (0 ∷ t) (bytes_eq_sound _ _ e))))
  ],
)
  where
    behind : 0 ∷ s ≡ 0 ∷ t → s ≡ t
    behind e = cc
