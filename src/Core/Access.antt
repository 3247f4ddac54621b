-- ===== src/Core/Access.antt =====
-- The well-formed states of a `FixedStr`, and its accessors, of src/fs_core.rs.
use fixed_str.Common.{
  ℕ, ◌<◌, ◌≡◌, ◌↔◌, refl, min, true, length, take, arith, ◌^◌, Bool-cases, inl, inr, if◌then◌else◌,
}
use fixed_str.Error.{ok, err, invalid_utf8}
use fixed_str.Utf8.{Bytes, IsUtf8, is_utf8, from_utf8}
use fixed_str.Utf8.Run.{is_utf8_iff}
use fixed_str.Slice.{slice_to_lem, Returns, Returns-ok, Returns→ok}
use fixed_str.Helpers.{find_first_null, truncate_utf8_lossy}
use fixed_str.Helpers.Null.{find_first_null-le}
use fixed_str.Helpers.Search.{IsCut, IsSlice, find_valid_utf8_len-IsCut, find_valid_utf8_len_valid}
use fixed_str.EffectiveBytes.{effective_bytes}
use fixed_str.Core.{FixedStr, content, is_valid, try_as_str, as_str}

-- The array has `N` bytes, and no array is longer than `isize::MAX` bytes.
pub record IsFixedStr {N : ℕ} (fs : FixedStr N) : Type 0 where
  pub size : length fs.bytes ≡ N
  pub small : N < 2 ^ 63

pub is_valid_iff : {N : ℕ} (fs : FixedStr N) → (is_valid fs ≡ true) ↔ IsUtf8 (content fs)
unfolding is_valid from_utf8
is_valid_iff fs = ground (arith, is_utf8_iff (content fs))

-- `truncate_utf8_lossy` returns a prefix as `IsCut` says: its SAFETY comment.
abbrev pub IsPrefixCut : Bytes → ℕ → Bytes → Type 0
IsPrefixCut bytes max_len s =
    (n : ℕ) × IsCut bytes (min max_len (find_first_null bytes)) n × (s ≡ take n bytes) × IsUtf8 s

pub truncate_utf8_lossy-IsPrefixCut :
    (bytes : Bytes) (max_len : ℕ)
    → IsSlice bytes
    → Returns (truncate_utf8_lossy bytes max_len) (IsPrefixCut bytes max_len)
unfolding truncate_utf8_lossy
truncate_utf8_lossy-IsPrefixCut bytes max_len small =
    let (n, e, cut) =
      Returns→ok _ (IsCut bytes _) (find_valid_utf8_len-IsCut bytes max_len small) in
    Returns-ok _ (IsPrefixCut bytes max_len) (take n bytes)
      (rw (e, slice_to_lem n bytes (omega (arith, cut.within, find_first_null-le bytes))))
      (n, cut, refl, cut.valid)

pub as_str-IsPrefixCut :
    {N : ℕ} (fs : FixedStr N) → IsFixedStr fs → Returns (as_str fs) (IsPrefixCut fs.bytes N)
unfolding as_str
as_str-IsPrefixCut {N} fs wf =
    truncate_utf8_lossy-IsPrefixCut fs.bytes N (omega (arith, wf.size, wf.small))

pub as_str_valid :
    {N : ℕ} (fs : FixedStr N)
    → length fs.bytes ≡ N
    → IsUtf8 (content fs)
    → as_str fs ≡ ok (content fs)
unfolding as_str truncate_utf8_lossy effective_bytes
as_str_valid {N} fs size valid =
    rw
      (find_valid_utf8_len_valid fs.bytes N (find_first_null fs.bytes)
        (omega (arith, size, find_first_null-le fs.bytes)) valid)
      (slice_to_lem (find_first_null fs.bytes) fs.bytes (find_first_null-le fs.bytes))

pub try_as_str-as_str :
    {N : ℕ} (fs : FixedStr N)
    → length fs.bytes ≡ N
    → try_as_str fs ≡ (if is_valid fs then as_str fs else err invalid_utf8)
unfolding is_valid from_utf8
try_as_str-as_str fs size = elim (Bool-cases (is_utf8 (content fs))) [
  | inl e ↦ rw e (sym-ok (as_str_valid fs size ((is_utf8_iff _).0 e)))
  | inr e ↦ rw e refl
]
  where
    sym-ok : as_str fs ≡ ok (content fs) → ok (content fs) ≡ as_str fs
    sym-ok e = cc
