-- ===== src/Core/Runs.antt =====
-- `FixedStr` of src/fs_core.rs runs as the machine on its content says.
use fixed_str.Common.{
  ℕ, ◌≤◌, ◌<◌, ◌≡◌, refl, ◌∙◌, List, [], ◌∷◌, length, set, arith, length-set, lt→leb, le→leb,
  lt→ltb, le→ltb,
}
use native.Mathlib.Decide.{dec_lt}
use fixed_str.Utf8.{Bytes}
use fixed_str.Slice.{write}
use fixed_str.Helpers.{find_first_null}
use fixed_str.Helpers.Null.{find_first_null-le}
use fixed_str.Helpers.Search.{IsSlice}
use fixed_str.EffectiveBytes.{effective_bytes}
use fixed_str.EffectiveBytes.Content.{
  length-effective_bytes, effective_bytes_idem, effective_bytes-pad,
}
use fixed_str.EffectiveBytes.Write.{effective_bytes-set, take-effective_bytes-set}
use fixed_str.Core
use fixed_str.Core.{FixedStr, content, set_lossy, clear, truncate, write_byte}
use fixed_str.Core.Access.{IsFixedStr}
use fixed_str.Core.Modify.{set_lem, set_lossy-IsPrefixOf, truncate-content, clear-content}
use fixed_str.Core.History.{
  Change, setting, setting_lossy, clearing, truncating, writing, IsSmall, AllSmall, apply,
  apply-IsFixedStr,
}
use fixed_str.Core.Machine.{
  call, call_all, Step, set_fits, set_full, set_part, emptied, shortened, written, written_behind,
  refused, Trace, stopped, called, Trace-IsBounded,
}

module _ {N : ℕ} (pos : 0 < N) (fs : FixedStr N) (wf : IsFixedStr fs) where
  set-Step :
      (s : Bytes) → Step N (content fs) (setting s) (Core.set fs s).1 (content (Core.set fs s).0)
  set-Step s = rw (set_lem fs pos s) (elim (dec_lt N (find_first_null s)) [
    | yes big ↦ rw (lt→leb (find_first_null s) N big) (set_full (content fs) s big)
    | no fits ↦
        let same = effective_bytes-pad N (effective_bytes s) ∙ effective_bytes_idem s in
        rw (le→leb (find_first_null s) N (omega arith), same)
          (set_fits (content fs) s (omega arith))
  ])

  set_lossy-Step :
      (s : Bytes)
      → IsSlice s
      → Step N (content fs) (setting_lossy s) (set_lossy fs s).1 (content (set_lossy fs s).0)
  set_lossy-Step s small =
      let (r, made) = set_lossy-IsPrefixOf fs pos s small in
      rw (r, made.shown) (set_part (content fs) s made.cut made.is_cut)

  write_byte-Step :
      (i b : ℕ)
      → Step N (content fs) (writing i b) (write_byte fs i b).1 (content (write_byte fs i b).0)
  unfolding write_byte write
  write_byte-Step i b =
      let size = length-effective_bytes fs.bytes in
      elim (dec_lt i N) [
        | no outside ↦
            rw (le→ltb i (length fs.bytes) (omega (arith, wf.size)))
              (refused (content fs) i b (omega arith))
        | yes inside ↦
            rw (lt→ltb i (length fs.bytes) (omega (arith, wf.size)))
              (elim (dec_lt i (find_first_null fs.bytes)) [
                | yes shown ↦
                    rw (effective_bytes-set fs.bytes i b shown)
                      (written (content fs) i b (omega (arith, size)))
                | no behind ↦
                    written_behind (content fs) (effective_bytes (set fs.bytes i b)) i b
                      (omega (arith, size)) inside
                      (rw size (take-effective_bytes-set fs.bytes i b (omega arith)))
                      (omega (
                        arith,
                        length-effective_bytes (set fs.bytes i b),
                        find_first_null-le (set fs.bytes i b),
                        length-set fs.bytes i b,
                        wf.size,
                      ))
              ])
      ]

  call-Step : (c : Change) → IsSmall c → Step N (content fs) c (call fs c).1 (content (call fs c).0)
  unfolding call
  call-Step (setting s) small = set-Step s
  call-Step (setting_lossy s) small = set_lossy-Step s small
  call-Step clearing small = rw (clear-content fs).1 (emptied (content fs))
  call-Step (truncating n) small =
      let (r, _, cut) = truncate-content fs wf n in rw (r, cut) (shortened (content fs) n)
  call-Step (writing i b) small = write_byte-Step i b

pub call-apply : {N : ℕ} (fs : FixedStr N) (c : Change) → (call fs c).0 ≡ apply fs c
unfolding call apply
call-apply fs (setting s) = refl
call-apply fs (setting_lossy s) = refl
call-apply fs clearing = refl
call-apply fs (truncating n) = refl
call-apply fs (writing i b) = refl

call_all-Run :
    {N : ℕ} (pos : 0 < N) (fs : FixedStr N) (cs : List Change)
    → IsFixedStr fs
    → AllSmall cs
    → Trace N (content fs) cs (call_all fs cs).1 (content (call_all fs cs).0)
      × IsFixedStr (call_all fs cs).0
unfolding call_all
call_all-Run pos fs [] wf small = (stopped (content fs), wf)
call_all-Run {N} pos fs (c ∷ cs) wf (small, others) =
    let next = (call fs c).0 in
    let step = call-Step pos fs wf c small in
    let wf' : IsFixedStr next = rw (call-apply fs c) (apply-IsFixedStr pos fs c small wf) in
    let (later, wf'') = call_all-Run pos next cs wf' others in
    (called (content fs) (content next) _ c cs (call fs c).1 _ step later, wf'')

-- A well-formed value with a capacity above 0 under any sequence of `set`, `set_lossy` of inputs
-- shorter than 2^63, `clear`, `truncate` and writes of bytes runs as the machine on its content:
-- its content and the ends of the calls are those of a `Trace`. `set` shows the bytes before the
-- first null if they fit, and otherwise reports the capacity and their length and leaves the
-- content; `set_lossy` shows a valid prefix of them; a write inside the content changes it there,
-- one behind it leaves it at the front, and one outside the array panics and leaves it. The value
-- stays well-formed, and its content never exceeds `N` bytes.
pub call_all-Trace :
    {N : ℕ} (fs : FixedStr N) (cs : List Change)
    → 0 < N
    → IsFixedStr fs
    → AllSmall cs
    → Trace N (content fs) cs (call_all fs cs).1 (content (call_all fs cs).0)
      × IsFixedStr (call_all fs cs).0
      × (length (content (call_all fs cs).0) ≤ N)
call_all-Trace fs cs pos wf small =
    let (trace, wf') = call_all-Run pos fs cs wf small in
    let size = length-effective_bytes fs.bytes in
    (trace, wf', Trace-IsBounded trace (omega (arith, size, find_first_null-le fs.bytes, wf.size)))
