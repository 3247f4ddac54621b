-- ===== src/Core/Tidy.antt =====
-- Values of src/fs_core.rs with only nulls behind their content, under calls that are no writes of
-- single bytes.
use fixed_str.Common.{
  ℕ, ◌-◌, ◌<◌, ◌≡◌, refl, ◌++◌, List, [], ◌∷◌, length, take, arith, lt→leb, le→leb, lt→ltb, le→ltb,
  length-take,
}
use native.Mathlib.Decide.{dec_lt}
use fixed_str.Utf8.{Bytes}
use fixed_str.Slice.{zeros, Returns→ok}
use fixed_str.Helpers.{find_first_null}
use fixed_str.Helpers.Null.{find_first_null-le}
use fixed_str.Helpers.Search.{IsSlice}
use fixed_str.Helpers.Copy.{pad, IsTruncated, copy_into_buffer-truncate}
use fixed_str.EffectiveBytes.{effective_bytes}
use fixed_str.EffectiveBytes.Content.{
  effective_bytes-pad, effective_bytes_idem, effective_bytes-take, length-effective_bytes,
}
use fixed_str.Core
use fixed_str.Core.{FixedStr, content, len, set_lossy, clear, truncate}
use fixed_str.Core.Access.{IsFixedStr}
use fixed_str.Core.Modify.{set_lem, truncate_lem, clear-content}
use fixed_str.Core.History.{
  Change, setting, setting_lossy, clearing, truncating, writing, IsSmall, AllSmall, apply,
  apply-IsFixedStr,
}
use fixed_str.Core.Machine.{call, call_all}
use fixed_str.Core.Runs.{call-apply}

-- Only nulls behind the content.
abbrev pub IsPadded : {N : ℕ} → FixedStr N → Type 0
IsPadded {N} fs = fs.bytes ≡ pad N (content fs)

-- The call is no write through `as_mut_bytes` or the slice.
abbrev pub IsWhole : Change → Type 0
IsWhole (writing i b) = ⊥
IsWhole _ = Unit

abbrev pub AllWhole : List Change → Type 0
AllWhole [] = Unit
AllWhole (c ∷ cs) = IsWhole c × AllWhole cs

-- What is made of a list without nulls and padded is padded.
padded : (N : ℕ) (s : Bytes) → effective_bytes s ≡ s → IsPadded {N = N} (record { bytes = pad N s })
padded N s clean = rw (effective_bytes-pad N s, clean) refl

module _ {N : ℕ} (pos : 0 < N) (fs : FixedStr N) (tidy : IsPadded fs) where
  set-IsPadded : (s : Bytes) → IsPadded (Core.set fs s).0
  set-IsPadded s = rw (set_lem fs pos s) (elim (dec_lt N (find_first_null s)) [
    | yes big ↦ rw (lt→leb (find_first_null s) N big) tidy
    | no fits ↦
        rw (le→leb (find_first_null s) N (omega arith))
          (padded N (effective_bytes s) (effective_bytes_idem s))
  ])

  set_lossy-IsPadded : (s : Bytes) → IsSlice s → IsPadded (set_lossy fs s).0
  unfolding set_lossy
  set_lossy-IsPadded s small =
      let src = effective_bytes s in
      let (buf, e, (n, cut, whole)) = Returns→ok _ (IsTruncated N src) (
        copy_into_buffer-truncate N src pos
          (omega (arith, length-effective_bytes s, find_first_null-le s))) in
      rw (e, whole) (padded N (take n src) (effective_bytes-take n src (omega (arith, cut.within))))

clear-IsPadded : {N : ℕ} (fs : FixedStr N) → IsPadded (clear fs)
clear-IsPadded {N} fs =
    let (zero, none_left, _) = clear-content fs in
    let room : N - 0 ≡ N = omega arith in rw (none_left, room) zero

truncate-IsPadded :
    {N : ℕ} (fs : FixedStr N) (n : ℕ) → IsFixedStr fs → IsPadded fs → IsPadded (truncate fs n).0
unfolding len
truncate-IsPadded {N} fs n wf tidy = elim (dec_lt n (find_first_null fs.bytes)) [
  | yes cut ↦
      let size : length (take n fs.bytes) ≡ n =
        omega (arith, length-take n fs.bytes, find_first_null-le fs.bytes) in
      let whole : take n fs.bytes ++ zeros (N - n) ≡ pad N (take n fs.bytes) = rw size refl in
      rw (truncate_lem fs wf n, lt→ltb n (find_first_null fs.bytes) cut, whole)
        (padded N (take n fs.bytes) (effective_bytes-take n fs.bytes (omega arith)))
  | no keep ↦ rw (truncate_lem fs wf n, le→ltb n (find_first_null fs.bytes) (omega arith)) tidy
]

apply-IsPadded :
    {N : ℕ} (pos : 0 < N) (fs : FixedStr N) (c : Change)
    → IsFixedStr fs
    → IsSmall c
    → IsWhole c
    → IsPadded fs
    → IsPadded (apply fs c)
unfolding apply
apply-IsPadded pos fs (setting s) wf small whole tidy = set-IsPadded pos fs tidy s
apply-IsPadded pos fs (setting_lossy s) wf small whole tidy = set_lossy-IsPadded pos fs tidy s small
apply-IsPadded pos fs clearing wf small whole tidy = clear-IsPadded fs
apply-IsPadded pos fs (truncating n) wf small whole tidy = truncate-IsPadded fs n wf tidy
apply-IsPadded pos fs (writing i b) wf small whole tidy = absurd whole

pub call_all-IsPadded :
    {N : ℕ} (pos : 0 < N) (fs : FixedStr N) (cs : List Change)
    → IsFixedStr fs
    → AllSmall cs
    → AllWhole cs
    → IsPadded fs
    → IsPadded (call_all fs cs).0
unfolding call_all
call_all-IsPadded pos fs [] wf small whole tidy = tidy
call_all-IsPadded {N} pos fs (c ∷ cs) wf (small, smalls) (whole, wholes) tidy =
    let e = call-apply fs c in
    call_all-IsPadded pos (call fs c).0 cs (rw e (apply-IsFixedStr pos fs c small wf)) smalls wholes
      (rw e (apply-IsPadded pos fs c wf small whole tidy))
