-- ===== src/Impl/Agree.antt =====
-- The ways to make a value of a string, across src/fs_core.rs, src/fs_impl.rs and src/fs_buffer.rs.
use fixed_str.Common.{
  ℕ, ◌-◌, ◌^◌, ◌≤◌, ◌<◌, ◌≡◌, refl, [], ◌∙◌, sym, ap, min, length, take, arith, ◌++◌, length-take,
  length-append, take-append_le,
}
use native.Mathlib.Decide.{dec_lt}
use fixed_str.Error.{Outcome, ok, ◌>>=◌, ◌>>◌}
use fixed_str.Utf8.{Bytes}
use fixed_str.Slice.{zeros, length-zeros, slice_to_lem, Returns→ok}
use fixed_str.Helpers.{find_first_null, find_valid_utf8_len, truncate_utf8_lossy}
use fixed_str.Helpers.Null.{find_first_null-le}
use fixed_str.Helpers.Search.{IsSlice, IsCut, find_valid_utf8_len-IsCut}
use fixed_str.Helpers.Copy.{pad, copy_into_buffer-truncate_at}
use fixed_str.Helpers.Agree.{find_valid_utf8_len-effective_bytes, find_valid_utf8_len-append_zeros}
use fixed_str.EffectiveBytes.{effective_bytes}
use fixed_str.EffectiveBytes.Content.{
  length-effective_bytes, take-effective_bytes, effective_bytes-take,
}
use fixed_str.Core.{FixedStr, Call, new, set_lossy}
use fixed_str.Buffer.{FixedStrBuf, default, push_str_lossy, finalize}
use fixed_str.Buffer.View.{IsBuf, text, length-text}
use fixed_str.Buffer.Push.{append_part, push_str_lossy_fits, push_str_lossy_kept}
use fixed_str.Buffer.Finish.{finalize-new, finalize_lem}

-- The value that a call on `&mut self` leaves, or how the call failed.
abbrev pub after : {N : ℕ} → Call N (Unit {0}) → Outcome (FixedStr N)
after (fs, result) = result >> ok fs

-- The value of the builder that a push leaves, or how the push failed.
abbrev pub finalized {ℓ} : {N : ℕ} {A : Type ℓ} → FixedStrBuf N × Outcome A → Outcome (FixedStr N)
finalized (b, result) = result >>= λ _. finalize b

-- What `new` keeps of a slice.
record Cutting (N : ℕ) (s : Bytes) : Type 0 where
  n : ℕ
  found : find_valid_utf8_len s N ≡ ok n
  cut : IsCut s (min N (find_first_null s)) n
  made : new N s ≡ ok (record { bytes = pad N (take n s) })

new_kept : (N : ℕ) (s : Bytes) → 0 < N → IsSlice s → Cutting N s
unfolding new
new_kept N s pos small =
    let (n, e, cut) = Returns→ok _ (IsCut s _) (find_valid_utf8_len-IsCut s N small) in
    record {
      n = n;
      found = e;
      cut = cut;
      made =
          rw
            (copy_into_buffer-truncate_at N s n pos e
              (omega (arith, cut.within, find_first_null-le s)) (omega (arith, cut.within)))
            refl;
    }

pub set_lossy-new :
    {N : ℕ} (fs : FixedStr N) (s : Bytes) → 0 < N → IsSlice s → after (set_lossy fs s) ≡ new N s
unfolding set_lossy
set_lossy-new {N} fs s pos small =
    let kept = new_kept N s pos small in
    let size = length-effective_bytes s in
    let copied =
      copy_into_buffer-truncate_at N (effective_bytes s) kept.n pos
        (find_valid_utf8_len-effective_bytes s N small ∙ kept.found)
        (omega (arith, kept.cut.within, size)) (omega (arith, kept.cut.within)) in
    rw (copied, take-effective_bytes kept.n s (omega (arith, kept.cut.within)), kept.made) refl

new-append_zeros :
    (N k : ℕ) (s : Bytes)
    → 0 < N
    → IsSlice s
    → IsSlice (s ++ zeros k)
    → new N (s ++ zeros k) ≡ new N s
unfolding new
new-append_zeros N k s pos small small_k =
    let kept = new_kept N s pos small in
    let room : kept.n ≤ length s = omega (arith, kept.cut.within, find_first_null-le s) in
    let copied =
      copy_into_buffer-truncate_at N (s ++ zeros k) kept.n pos
        (find_valid_utf8_len-append_zeros s k N small small_k ∙ kept.found)
        (omega (arith, length-append s (zeros k))) (omega (arith, kept.cut.within)) in
    rw (copied, take-append_le s (zeros k) kept.n room) (sym kept.made)

pub default-IsBuf : (N : ℕ) → N < 2 ^ 63 → IsBuf (default N)
unfolding default
default-IsBuf N small = record { size = length-zeros N; room = omega arith; small = small }

truncated_at :
    (s : Bytes) (n : ℕ) {N : ℕ} (room : ℕ)
    → room ≡ N
    → find_valid_utf8_len s N ≡ ok n
    → n ≤ length s
    → truncate_utf8_lossy s room ≡ ok (take n s)
unfolding truncate_utf8_lossy
truncated_at s n room e found inside = rw (e, found, ◌>>=◌) (slice_to_lem n s inside)

-- A builder in which nothing has been written.
module _ {N : ℕ} (b : FixedStrBuf N) (wf : IsBuf b) (empty : b.len ≡ 0) (pos : 0 < N) where
  text-empty : text b ≡ []
  text-empty = rw empty

  finalize-text :
      (b' : FixedStrBuf N) (s : Bytes)
      → IsBuf b'
      → text b' ≡ text b ++ s
      → IsSlice s
      → finalize b' ≡ new N s
  finalize-text b' s wf' e small =
      let same : text b' ≡ s = rw text-empty at e in
      let rest = zeros (N - b'.len) in
      finalize-new b' wf' pos
      ∙ rw same (
          new-append_zeros N (N - b'.len) s pos small (
            omega (
              arith,
              length-append s rest,
              length-zeros (N - b'.len),
              ap length same,
              length-text b' wf',
              wf'.room,
              wf'.small,
            )))

  pub push_str_lossy-new : (s : Bytes) → IsSlice s → finalized (push_str_lossy b s) ≡ new N s
  push_str_lossy-new s small = elim (dec_lt (N - b.len) (length s)) [
    | no room ↦
        let (t, r, w) = push_str_lossy_fits b wf s (omega arith) in
        rw (r, ◌>>=◌) (finalize-text (push_str_lossy b s).0 s w t small)
    | yes big ↦
        let kept = new_kept N s pos small in
        let p = take kept.n s in
        let short : kept.n ≤ find_first_null s = omega (arith, kept.cut.within) in
        let inside : kept.n ≤ length s = omega (arith, short, find_first_null-le s) in
        let size : length p ≤ N - b.len = omega (arith, length-take kept.n s, kept.cut.within) in
        let cut = truncated s kept.n kept.found inside in
        let (b', e, t, w) = append_part b wf p size in
        let whole = text-is p b' t in
        let shown = effective_bytes-take kept.n s short in
        rw (push_str_lossy_kept b wf s p b' big cut size e, ◌>>=◌)
          (finalize_lem b' w pos (rw (whole, shown) kept.cut.valid)
            ∙ rw (whole, shown) (sym kept.made))
  ]
    where
      truncated :
          (s : Bytes) (n : ℕ)
          → find_valid_utf8_len s N ≡ ok n
          → n ≤ length s
          → truncate_utf8_lossy s (N - b.len) ≡ ok (take n s)
      truncated s n found inside = truncated_at s n (N - b.len) (omega arith) found inside

      text-is : (p : Bytes) (b' : FixedStrBuf N) → text b' ≡ text b ++ p → text b' ≡ p
      text-is p b' t = rw text-empty at t
