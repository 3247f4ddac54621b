-- ===== src/Buffer/Runs.antt =====
-- The builder of src/fs_buffer.rs runs as the machine on its text says.
use fixed_str.Common.{ℕ, ◌-◌, ◌≤◌, ◌≡◌, ◌≢◌, List, [], ◌∷◌, length, All, arith, lt→ltb, le→ltb}
use native.Mathlib.Decide.{dec_lt}
use fixed_str.Error.{Outcome, panic}
use fixed_str.Utf8.{Bytes}
use fixed_str.Slice.{length-zeros}
use fixed_str.Helpers.Search.{IsSlice}
use fixed_str.EffectiveBytes.{effective_bytes}
use fixed_str.Buffer.{FixedStrBuf, try_push_str, try_push_char, push_str_lossy, clear}
use fixed_str.Buffer.View.{IsBuf, text, length-text}
use fixed_str.Buffer.Push.{
  push_spec, try_push_str-push_spec, push_str_lossy_fits, push_str_lossy-IsCut,
}
use fixed_str.Buffer.Char.{added, try_push_char-push_spec}
use fixed_str.Buffer.Cut.{truncate-text}
use fixed_str.Buffer.History.{Change, pushing, pushing_lossy, pushing_char, clearing, cutting}
use fixed_str.Buffer.Clean.{IsSmall, AllSmall}
use fixed_str.Buffer.Machine.{
  reply, act, act_all, Step, push_fits, push_full, char_fits, char_full, lossy_whole, lossy_part,
  emptied, shortened, Trace, stopped, called, Trace-IsBounded,
}

-- A step of `push_spec`, for a string and for a character.
pushed_string :
    (N : ℕ) (t s t' : Bytes) (r : Outcome (Unit {0}))
    → t' ≡ (push_spec N t (effective_bytes s)).0
    → r ≡ (push_spec N t (effective_bytes s)).1
    → Step N t (pushing s) (reply r) t'
pushed_string N t s t' r et er =
    rw (et, er)
      (elim (dec_lt (N - length t) (length (effective_bytes s))) [
        | yes big ↦ rw (lt→ltb (N - length t) (length (effective_bytes s)) big) (push_full t s big)
        | no fits ↦
            rw (le→ltb (N - length t) (length (effective_bytes s)) (omega arith))
              (push_fits t s (omega arith))
      ])

pushed_char :
    (N : ℕ) (t : Bytes) (c : ℕ) (t' : Bytes) (r : Outcome (Unit {0}))
    → t' ≡ (push_spec N t (added c)).0
    → r ≡ (push_spec N t (added c)).1
    → Step N t (pushing_char c) (reply r) t'
pushed_char N t c t' r et er =
    rw (et, er)
      (elim (dec_lt (N - length t) (length (added c))) [
        | yes big ↦ rw (lt→ltb (N - length t) (length (added c)) big) (char_full t c big)
        | no fits ↦
            rw (le→ltb (N - length t) (length (added c)) (omega arith))
              (char_fits t c (omega arith))
      ])

module _ {N : ℕ} (b : FixedStrBuf N) (wf : IsBuf b) where
  lossy-Step :
      (s : Bytes)
      → IsSlice s
      → Step N (text b) (pushing_lossy s) (push_str_lossy b s).1 (text (push_str_lossy b s).0)
        × IsBuf (push_str_lossy b s).0
  lossy-Step s small =
      let size = length-text b wf in
      elim (dec_lt (N - b.len) (length s)) [
        | no room ↦
            let (t, r, w) = push_str_lossy_fits b wf s (omega arith) in
            (rw (t, r) (lossy_whole (text b) s (omega (arith, size))), w)
        | yes big ↦
            let (n, cut, t, r, w) = push_str_lossy-IsCut b wf s small big in
            (rw (t, r) (lossy_part (text b) s n (omega (arith, size)) (rw size cut)), w)
      ]

  act-Step :
      (c : Change)
      → IsSmall c
      → Step N (text b) c (act b c).1 (text (act b c).0) × IsBuf (act b c).0
  unfolding act clear
  act-Step (pushing s) small =
      let (t, r, w) = try_push_str-push_spec b wf s in
      (pushed_string N (text b) s (text (try_push_str b s).0) (try_push_str b s).1 t r, w)
  act-Step (pushing_lossy s) small = lossy-Step s small
  act-Step (pushing_char c) small =
      let (t, r, w) = try_push_char-push_spec b c wf in
      (pushed_char N (text b) c (text (try_push_char b c).0) (try_push_char b c).1 t r, w)
  act-Step clearing small =
      (emptied (text b), record { size = length-zeros N; room = omega arith; small = wf.small })
  act-Step (cutting new_len) small =
      let (t, r, w) = truncate-text b wf new_len in (rw (t, r) (shortened (text b) new_len), w)

act_all-Run :
    {N : ℕ} (b : FixedStrBuf N) (cs : List Change)
    → IsBuf b
    → AllSmall cs
    → Trace N (text b) cs (act_all b cs).1 (text (act_all b cs).0) × IsBuf (act_all b cs).0
unfolding act_all
act_all-Run b [] wf small = (stopped (text b), wf)
act_all-Run {N} b (c ∷ cs) wf (small, others) =
    let (step, wf') = act-Step b wf c small in
    let (later, wf'') = act_all-Run (act b c).0 cs wf' others in
    (called (text b) (text (act b c).0) _ c cs (act b c).1 _ step later, wf'')

-- A well-formed builder under any sequence of pushes of strings and characters, lossy pushes of
-- bytes shorter than 2^63, `clear` and `truncate` runs as the machine on its text: its text and
-- its replies are those of a `Trace`. A push appends the bytes before the first null (no bytes for
-- the null character) if they fit, and otherwise reports the room and their length and leaves the
-- text; a lossy push appends all or a valid prefix; `clear` empties the text, and `truncate` cuts
-- it. The builder stays well-formed, its text never exceeds `N` bytes, and no call panics.
pub act_all-Trace :
    {N : ℕ} (b : FixedStrBuf N) (cs : List Change)
    → IsBuf b
    → AllSmall cs
    → Trace N (text b) cs (act_all b cs).1 (text (act_all b cs).0)
      × IsBuf (act_all b cs).0
      × (length (text (act_all b cs).0) ≤ N)
      × All (λ r. r ≢ panic) (act_all b cs).1
act_all-Trace b cs wf small =
    let (trace, wf') = act_all-Run b cs wf small in
    let (h, sound) = Trace-IsBounded trace (omega (arith, length-text b wf, wf.room)) in
    (trace, wf', h, sound)
