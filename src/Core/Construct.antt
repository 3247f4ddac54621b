-- ===== src/Core/Construct.antt =====
-- The constructors of src/fs_core.rs other than `new_const`.
use native.Mathlib.Decide.{dec_lt}
use fixed_str.Common.{
  ◌⊎◌, inl, inr, ◌∙◌, ℕ, ◌≤◌, ◌<◌, ◌≡◌, refl, min, true, length, take, arith, ◌∙◌, ◌-◌, append-nil,
  take_all, length-take,
}
use fixed_str.Error.{ok, panic}
use fixed_str.Utf8.{Bytes, IsUtf8}
use fixed_str.Slice.{Returns, Returns→ok}
use fixed_str.Helpers.{find_first_null, truncate, slice}
use fixed_str.Helpers.Search.{IsCut, IsSlice}
use fixed_str.Helpers.Copy.{
  pad, length-pad, IsTruncated, copy_into_buffer-truncate, copy_into_buffer-truncate_valid,
  copy_into_buffer_slice, copy_into_buffer_zero,
}
use fixed_str.EffectiveBytes.{effective_bytes}
use fixed_str.EffectiveBytes.Content.{effective_bytes-pad, effective_bytes-take}
use fixed_str.Core.{
  FixedStr, content, is_valid, new, from_slice, from_bytes, from_slice_unsafe, from_bytes_unsafe,
}
use fixed_str.Core.Access.{is_valid_iff}

-- A `&str`: valid UTF-8, and no longer than `isize::MAX` bytes.
pub record IsStr (s : Bytes) : Type 0 where
  pub utf8 : IsUtf8 s
  pub small : IsSlice s

-- What the truncating constructors make of their input: a value of `N` bytes whose content is a
-- valid prefix of the input, ended as `IsCut` says.
pub record IsPrefixOf {N : ℕ} (input : Bytes) (fs : FixedStr N) : Type 0 where
  pub size : length fs.bytes ≡ N
  pub valid : is_valid fs ≡ true
  pub cut : ℕ
  pub is_cut : IsCut input (min N (find_first_null input)) cut
  pub shown : content fs ≡ take cut input

pub truncated-IsPrefixOf :
    (N : ℕ) (input buf : Bytes)
    → IsTruncated N input buf
    → IsPrefixOf {N = N} input (record { bytes = buf })
truncated-IsPrefixOf N input buf (n, cut, e) =
    let room : n ≤ N = omega (arith, cut.within) in
    let shown : effective_bytes buf ≡ take n input = rw e (
      effective_bytes-pad N (take n input)
      ∙ effective_bytes-take n input (omega (arith, cut.within))) in
    record {
      size = rw e (length-pad N (take n input) (omega (arith, length-take n input)));
      valid = (is_valid_iff (record { bytes = buf })).1 (rw shown cut.valid);
      cut = n;
      is_cut = cut;
      shown = shown;
    }

pub new-IsPrefixOf :
    (N : ℕ) (input : Bytes) → 0 < N → IsSlice input → Returns (new N input) (IsPrefixOf input)
unfolding new
new-IsPrefixOf N input pos small =
    let (buf, e, t) =
      Returns→ok _ (IsTruncated N input) (copy_into_buffer-truncate N input pos small) in
    rw e (truncated-IsPrefixOf N input buf t)

pub from_slice-new : (N : ℕ) (input : Bytes) → from_slice N input ≡ new N input
unfolding new from_slice
from_slice-new N input = refl

pub from_bytes-new : (N : ℕ) (input : Bytes) → from_bytes N input ≡ new N input
unfolding new from_bytes
from_bytes-new N input = refl

pub constructors-IsPrefixOf :
    (N : ℕ) (input : Bytes)
    → 0 < N
    → IsSlice input
    → Returns (new N input) (IsPrefixOf input)
      × Returns (from_slice N input) (IsPrefixOf input)
      × Returns (from_bytes N input) (IsPrefixOf input)
constructors-IsPrefixOf N input pos small =
    let made = new-IsPrefixOf N input pos small in
    (made, rw (from_slice-new N input) made, rw (from_bytes-new N input) made)

-- With nothing to cut the content is the input up to its first null.
pub new_fits :
    (N : ℕ) (input : Bytes)
    → 0 < N
    → IsUtf8 (effective_bytes input)
    → find_first_null input ≤ N
    → new N input ≡ ok (record { bytes = pad N (effective_bytes input) })
unfolding new effective_bytes
new_fits N input pos valid fits =
    rw (copy_into_buffer-truncate_valid N input (find_first_null input) pos (omega arith) valid)

-- `from_slice_unsafe` keeps the first `N` bytes as they are.
pub from_slice_unsafe_lem :
    (N : ℕ) (input : Bytes)
    → 0 < N
    → from_slice_unsafe N input ≡ ok (record { bytes = pad N (take N input) })
unfolding from_slice_unsafe
from_slice_unsafe_lem N input pos = rw (copy_into_buffer_slice N input pos)

pub from_bytes_unsafe_lem :
    (N : ℕ) (input : Bytes)
    → 0 < N
    → length input ≡ N
    → from_bytes_unsafe N input ≡ ok (record { bytes = input })
unfolding from_bytes_unsafe
from_bytes_unsafe_lem N input pos e =
    let none_left : N - length (take N input) ≡ 0 = omega (arith, length-take N input) in
    rw (copy_into_buffer_slice N input pos)
      (rw none_left (rw (append-nil, take_all N input (omega arith)) refl))

-- Every constructor panics at the capacity 0.
pub constructors_zero :
    (input : Bytes)
    → (new 0 input ≡ panic)
      × (from_slice 0 input ≡ panic)
      × (from_slice_unsafe 0 input ≡ panic)
      × (from_bytes 0 input ≡ panic)
      × (from_bytes_unsafe 0 input ≡ panic)
unfolding new from_slice from_slice_unsafe from_bytes from_bytes_unsafe
constructors_zero input = (
  rw (copy_into_buffer_zero input truncate),
  rw (copy_into_buffer_zero input truncate),
  rw (copy_into_buffer_zero input slice),
  rw (copy_into_buffer_zero input truncate),
  rw (copy_into_buffer_zero input slice),
)

from_bytes_unsafe-from_slice_unsafe :
    (N : ℕ) (input : Bytes) → from_bytes_unsafe N input ≡ from_slice_unsafe N input
unfolding from_slice_unsafe from_bytes_unsafe
from_bytes_unsafe-from_slice_unsafe N input = refl

-- What the constructors that do not look for a string make: the first `N` bytes.
abbrev pub first_bytes : (N : ℕ) → Bytes → FixedStr N
first_bytes N input = record { bytes = pad N (take N input) }

-- For every input shorter than 2^63, valid UTF-8 or not: at a capacity above 0, `new`,
-- `from_slice` and `from_bytes` return a valid value of `N` bytes whose content is a valid prefix
-- of the input up to its first null, ended as `IsCut` says, and `from_slice_unsafe` and
-- `from_bytes_unsafe` return its first `N` bytes, padded with nulls. At the capacity 0 all of them
-- panic.
pub constructors_lem :
    (N : ℕ) (input : Bytes)
    → IsSlice input
    → ((0 < N)
        × Returns (new N input) (IsPrefixOf input)
        × Returns (from_slice N input) (IsPrefixOf input)
        × Returns (from_bytes N input) (IsPrefixOf input)
        × (from_slice_unsafe N input ≡ ok (first_bytes N input))
        × (from_bytes_unsafe N input ≡ ok (first_bytes N input)))
      ⊎ ((N ≡ 0)
          × (new N input ≡ panic)
          × (from_slice N input ≡ panic)
          × (from_bytes N input ≡ panic)
          × (from_slice_unsafe N input ≡ panic)
          × (from_bytes_unsafe N input ≡ panic))
constructors_lem N input small = elim (dec_lt 0 N) [
  | yes pos ↦
      let (made, made', made'') = constructors-IsPrefixOf N input pos small in
      let kept = from_slice_unsafe_lem N input pos in
      inl (pos, made, made', made'', kept, from_bytes_unsafe-from_slice_unsafe N input ∙ kept)
  | no none_left ↦
      let e : N ≡ 0 = omega arith in
      let (a, b, c, d, f) = constructors_zero input in
      inr (e, rw e a, rw e b, rw e d, rw e c, rw e f)
]
