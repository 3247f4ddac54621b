-- ===== src/Impl/Strict.antt =====
-- The strict and the lossy ways to make a value of a string, across src/fs_core.rs,
-- src/fs_impl.rs and src/fs_buffer.rs.
use fixed_str.Common.{
  ℕ, ◌-◌, ◌^◌, ◌≤◌, ◌<◌, ◌≡◌, refl, [], ◌⊎◌, inl, inr, ◌∙◌, ap, arith, leb, if◌then◌else◌, le→ltb,
  lt→ltb, le→leb, lt→leb,
}
use native.Mathlib.Decide.{dec_lt}
use fixed_str.Error.{Outcome, ok, err, overflow}
use fixed_str.Utf8.{Bytes, IsUtf8}
use fixed_str.Utf8.Run.{is_utf8_iff}
use fixed_str.Helpers.{find_first_null}
use fixed_str.Helpers.Search.{IsSlice}
use fixed_str.Helpers.Copy.{pad}
use fixed_str.EffectiveBytes.{effective_bytes}
use fixed_str.EffectiveBytes.Content.{
  length-effective_bytes, effective_bytes-IsUtf8, effective_bytes_idem,
}
use fixed_str.Core.{FixedStr, new, from_slice, set, set_lossy}
use fixed_str.Core.Construct.{new_fits, from_slice-new}
use fixed_str.Core.Modify.{set_lem}
use fixed_str.Buffer.{FixedStrBuf, default, try_push_str, push_str_lossy}
use fixed_str.Buffer.View.{IsBuf, text, appended, text-appended, appended-IsBuf}
use fixed_str.Buffer.Push.{try_push_str_fits, try_push_str_full}
use fixed_str.Buffer.Finish.{finalize_lem}
use fixed_str.Impl.{try_from, from_str, from_string}
use fixed_str.Impl.Convert.{try_from_lem}
use fixed_str.Impl.Agree.{after, finalized, set_lossy-new, push_str_lossy-new, default-IsBuf}

-- What a strict way makes of a string: all of it, or an error.
abbrev pub strict : (N : ℕ) → Bytes → Outcome (FixedStr N)
strict N s =
    if leb (find_first_null s) N
    then ok (record { bytes = pad N (effective_bytes s) })
    else err (overflow N (find_first_null s))

module _ (N : ℕ) (pos : 0 < N) (s : Bytes) (valid : IsUtf8 s) where
  pub try_from-strict : try_from N s ≡ strict N s
  try_from-strict = try_from_lem N s pos ∙ elim (dec_lt N (find_first_null s)) [
    | yes big ↦ rw (lt→ltb N (find_first_null s) big, lt→leb (find_first_null s) N big) refl
    | no fits ↦
        rw
          (
            le→ltb N (find_first_null s) (omega arith),
            le→leb (find_first_null s) N (omega arith),
            (is_utf8_iff (effective_bytes s)).1 (effective_bytes-IsUtf8 s valid),
          )
          refl
  ]

  set-strict : (fs : FixedStr N) → after (set fs s) ≡ strict N s
  set-strict fs = rw (set_lem fs pos s) (elim (dec_lt N (find_first_null s)) [
    | yes big ↦ rw (lt→leb (find_first_null s) N big) refl
    | no fits ↦ rw (le→leb (find_first_null s) N (omega arith)) refl
  ])

  try_push_str-strict :
      (b : FixedStrBuf N) → IsBuf b → b.len ≡ 0 → finalized (try_push_str b s) ≡ strict N s
  try_push_str-strict b wf empty =
      let e = effective_bytes s in
      let size = length-effective_bytes s in
      elim (dec_lt N (find_first_null s)) [
        | yes big ↦
            let room : N - b.len ≡ N = omega arith in
            rw
              (
                try_push_str_full b wf s (omega (arith, size)),
                room,
                size,
                lt→leb (find_first_null s) N big,
              )
              refl
        | no fits ↦
            let whole : text (appended b wf e) ≡ e = alone b wf empty e in
            let same = ap effective_bytes whole ∙ effective_bytes_idem s in
            rw
              (
                try_push_str_fits b wf s (omega (arith, size)),
                le→leb (find_first_null s) N (omega arith),
              )
              (finalize_lem (appended b wf e) (appended-IsBuf b wf e (omega (arith, size))) pos
                  (rw same (effective_bytes-IsUtf8 s valid))
                ∙ rw same refl)
      ]
    where
      alone :
          (b : FixedStrBuf N) (wf : IsBuf b) → b.len ≡ 0 → (e : Bytes) → text (appended b wf e) ≡ e
      alone b wf empty e = let nothing : text b ≡ [] = rw empty in text-appended b wf e ∙ rw nothing

  strict-new :
      ((find_first_null s ≤ N) × (strict N s ≡ new N s))
      ⊎ ((N < find_first_null s) × (strict N s ≡ err (overflow N (find_first_null s))))
  strict-new = elim (dec_lt N (find_first_null s)) [
    | yes big ↦ inr (big, rw (lt→leb (find_first_null s) N big) refl)
    | no fits ↦ inl (
      omega arith,
      rw
          (
            le→leb (find_first_null s) N (omega arith),
            new_fits N s pos (effective_bytes-IsUtf8 s valid) (omega arith),
          )
          refl,
    )
  ]

-- Of a valid string shorter than 2^63, at a capacity from 1 to 2^63 - 1: the lossy ways of making
-- a value (`new`, `from_slice`, the two `From`, `set_lossy` on any value, `push_str_lossy` to an
-- empty builder and `finalize`) all make the same one, and so do the strict ways (`try_from`,
-- `set` on any value, `try_push_str` to an empty builder and `finalize`), errors included. Where
-- the bytes before the first null fit, the strict ways make what the lossy ones make, and
-- otherwise they report the capacity and the length of these bytes.
pub new-try_from :
    {N : ℕ} (fs : FixedStr N) (s : Bytes)
    → 0 < N
    → N < 2 ^ 63
    → IsSlice s
    → IsUtf8 s
    → (from_slice N s ≡ new N s)
      × (from_str N s ≡ new N s)
      × (from_string N s ≡ new N s)
      × (after (set_lossy fs s) ≡ new N s)
      × (finalized (push_str_lossy (default N) s) ≡ new N s)
      × (after (set fs s) ≡ try_from N s)
      × (finalized (try_push_str (default N) s) ≡ try_from N s)
      × (((find_first_null s ≤ N) × (try_from N s ≡ new N s))
          ⊎ ((N < find_first_null s) × (try_from N s ≡ err (overflow N (find_first_null s)))))
unfolding from_str from_string default
new-try_from {N} fs s pos small slice valid =
    let strictly = try_from-strict N pos s valid in
    let empty = default-IsBuf N small in
    (
      from_slice-new N s,
      refl,
      refl,
      set_lossy-new fs s pos slice,
      push_str_lossy-new (default N) empty refl pos s slice,
      rw strictly (set-strict N pos s valid fs),
      rw strictly (try_push_str-strict N pos s valid (default N) empty refl),
      rw strictly (strict-new N pos s valid),
    )
