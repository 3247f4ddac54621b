-- ===== src/Buffer/Push.antt =====
-- The pushes of src/fs_buffer.rs: each refines appending to the text.
use fixed_str.Common.{
  ℕ, ◌-◌, ◌≤◌, ◌<◌, ◌≡◌, refl, ◌==◌, ltb, not, true, false, length, take, arith, ◌++◌, sym, [], ◌∷◌,
  min, append-nil, lt→ltb, le→ltb, if◌then◌else◌, length-take, ==_iff,
}
use native.Mathlib.Decide.{dec_lt}
use fixed_str.Error.{Outcome, ok, err, overflow, ◌>>=◌}
use fixed_str.Utf8.{Bytes}
use fixed_str.Slice.{Returns→ok}
use fixed_str.Helpers.{find_first_null, truncate_utf8_lossy}
use fixed_str.Helpers.Search.{IsCut, IsSlice}
use fixed_str.EffectiveBytes.{effective_bytes}
use fixed_str.Core.Access.{IsPrefixCut, truncate_utf8_lossy-IsPrefixCut}
use fixed_str.Buffer.{FixedStrBuf, append, try_push_str, push_str_lossy}
use fixed_str.Buffer.View.{
  IsBuf, text, length-text, remaining_lem, appended, append_lem, text-appended, appended-IsBuf,
}

-- What a builder of capacity `N` promises of an append of `s` to the text `t`: all of it, or an
-- error that names the room left and the length.
abbrev pub push_spec : ℕ → Bytes → Bytes → Bytes × Outcome (Unit {0})
push_spec N t s =
    if ltb (N - length t) (length s)
    then (t, err (overflow (N - length t) (length s)))
    else (t ++ s, ok tt)

module _ {N : ℕ} (b : FixedStrBuf N) (wf : IsBuf b) where
  pub try_push_str_fits :
      (s : Bytes)
      → length (effective_bytes s) ≤ N - b.len
      → try_push_str b s ≡ (appended b wf (effective_bytes s), ok tt)
  unfolding try_push_str
  try_push_str_fits s fits =
      rw
        (
          remaining_lem b wf,
          le→ltb (N - b.len) (length (effective_bytes s)) fits,
          append_lem b wf (effective_bytes s) fits,
        )
        refl

  pub try_push_str_full :
      (s : Bytes)
      → N - b.len < length (effective_bytes s)
      → try_push_str b s ≡ (b, err (overflow (N - b.len) (length (effective_bytes s))))
  unfolding try_push_str
  try_push_str_full s big =
      rw (remaining_lem b wf, lt→ltb (N - b.len) (length (effective_bytes s)) big) refl

  -- On a well-formed builder `try_push_str` does to the text written so far what `push_spec` does
  -- at the bytes of the argument before its first null: it appends them if they fit, and otherwise
  -- changes nothing and reports the room and their length. The builder stays well-formed.
  pub try_push_str-push_spec :
      (s : Bytes)
      → (text (try_push_str b s).0 ≡ (push_spec N (text b) (effective_bytes s)).0)
        × ((try_push_str b s).1 ≡ (push_spec N (text b) (effective_bytes s)).1)
        × IsBuf (try_push_str b s).0
  try_push_str-push_spec s =
      let e = effective_bytes s in
      rw (length-text b wf) (elim (dec_lt (N - b.len) (length e)) [
        | yes big ↦ rw (lt→ltb (N - b.len) (length e) big, try_push_str_full s big) (refl, refl, wf)
        | no fits ↦
            rw (le→ltb (N - b.len) (length e) (omega arith), try_push_str_fits s (omega arith))
              (text-appended b wf e, refl, appended-IsBuf b wf e (omega arith))
      ])

  -- An append that may be of nothing.
  pub append_part :
      (s : Bytes)
      → length s ≤ N - b.len
      → (b' : FixedStrBuf N) × ((if not (length s == 0) then append b s else ok b) ≡ ok b')
        × (text b' ≡ text b ++ s)
        × IsBuf b'
  append_part [] fits = (b, refl, sym (append-nil (text b)), wf)
  append_part (x ∷ s) fits = (
    appended b wf (x ∷ s),
    ground (arith, append_lem b wf (x ∷ s) fits),
    text-appended b wf (x ∷ s),
    appended-IsBuf b wf (x ∷ s) fits,
  )

  -- The call where the whole argument is kept, once the state after its append is known.
  pub push_str_lossy_whole :
      (s : Bytes) (b' : FixedStrBuf N)
      → length s ≤ N - b.len
      → (if not (length s == 0) then append b s else ok b) ≡ ok b'
      → push_str_lossy b s ≡ (b', ok true)
  unfolding push_str_lossy
  push_str_lossy_whole s b' fits e =
      rw (remaining_lem b wf, le→ltb (N - b.len) (length s) fits)
        (rw (◌>>=◌, e) (rw (◌>>=◌, (==_iff (length s) (length s)).1 refl) refl))

  pub push_str_lossy_fits :
      (s : Bytes)
      → length s ≤ N - b.len
      → (text (push_str_lossy b s).0 ≡ text b ++ s)
        × ((push_str_lossy b s).1 ≡ ok true)
        × IsBuf (push_str_lossy b s).0
  push_str_lossy_fits s fits =
      let (b', e, t, w) = append_part s fits in rw (push_str_lossy_whole s b' fits e) (t, refl, w)

  -- The call, once the kept prefix and the state after its append are known.
  pub push_str_lossy_kept :
      (s p : Bytes) (b' : FixedStrBuf N)
      → N - b.len < length s
      → truncate_utf8_lossy s (N - b.len) ≡ ok p
      → length p ≤ N - b.len
      → (if not (length p == 0) then append b p else ok b) ≡ ok b'
      → push_str_lossy b s ≡ (b', ok false)
  unfolding push_str_lossy
  push_str_lossy_kept s p b' big e size e' =
      let differ : (length p == length s) ≡ false = ground arith in
      rw (remaining_lem b wf, lt→ltb (N - b.len) (length s) big, e)
        (rw (◌>>=◌, e') (rw (◌>>=◌, differ) refl))

  pub push_str_lossy-IsCut :
      (s : Bytes)
      → IsSlice s
      → N - b.len < length s
      → (n : ℕ) × IsCut s (min (N - b.len) (find_first_null s)) n
        × (text (push_str_lossy b s).0 ≡ text b ++ take n s)
        × ((push_str_lossy b s).1 ≡ ok false)
        × IsBuf (push_str_lossy b s).0
  push_str_lossy-IsCut s small big =
      let (p, e, (n, cut, whole, valid)) =
        Returns→ok _ (IsPrefixCut s (N - b.len))
          (truncate_utf8_lossy-IsPrefixCut s (N - b.len) small) in
      let size : length p ≤ N - b.len = rw whole (omega (arith, length-take n s, cut.within)) in
      let (b', e', t, w) = append_part p size in
      let call = push_str_lossy_kept s p b' big e size e' in
      (n, cut, rw (call, t, whole) refl, rw call refl, rw call w)
