-- ===== src/Examples/Runs.antt =====
-- Sequences of calls on a value and on a builder.
use fixed_str.Common.{◌≡◌, ◌↔◌, refl, true, ◌≢◌, ◌≤◌, List, [], ◌∷◌, length, All, arith}
use fixed_str.Error.{panic}
use fixed_str.Core.{content}
use fixed_str.Core.Access.{IsFixedStr}
use fixed_str.Core.History as ValueHistory
use fixed_str.Core.Machine.{Trace, call_all}
use fixed_str.Core.Runs.{call_all-Trace}
use fixed_str.Core.Tidy.{IsPadded}
use fixed_str.Utf8.{Bytes}
use fixed_str.EffectiveBytes.{effective_bytes}
use fixed_str.Helpers.{find_first_null}
use fixed_str.Helpers.Copy.{pad}
use Prim.Native.Nat.{eq}
use fixed_str.Impl.{cmp, derived_eq}
use fixed_str.Impl.Histories.{call_all-derived_eq}
use fixed_str.Buffer.{default}
use fixed_str.Buffer.View.{IsBuf, text}
use fixed_str.Buffer.History as BuilderHistory
use fixed_str.Buffer.Machine as BuilderMachine
use fixed_str.Buffer.Machine.{act_all}
use fixed_str.Buffer.Runs.{act_all-Trace}
use fixed_str.Impl.Agree.{default-IsBuf}
use fixed_str.Examples.Helpers.{smiling}
use fixed_str.Examples.Values.{hi, hi-IsFixedStr}

-- A string that does not fit, the same one cut, a write to the content, one behind it and one
-- outside, and a cut.
abbrev changes : List ValueHistory.Change
changes =
    ValueHistory.setting smiling
    ∷ ValueHistory.setting_lossy smiling
    ∷ ValueHistory.writing 0 0x65
    ∷ ValueHistory.writing 3 0x66
    ∷ ValueHistory.writing 4 0x67
    ∷ ValueHistory.truncating 1
    ∷ []

call_all-Trace_example :
    Trace 4 (content hi) changes (call_all hi changes).1 (content (call_all hi changes).0)
    × IsFixedStr (call_all hi changes).0
    × (length (content (call_all hi changes).0) ≤ 4)
call_all-Trace_example =
    call_all-Trace hi changes (omega arith) hi-IsFixedStr
      (omega arith, (omega arith, (tt, (tt, (tt, (tt, tt))))))

-- Two ways to the same content: a string that fits, and a longer one that is cut.
abbrev cut_short : List ValueHistory.Change
cut_short =
    ValueHistory.setting_lossy smiling
    ∷ ValueHistory.clearing
    ∷ ValueHistory.setting_lossy (0x68 ∷ 0x6f ∷ 0x68 ∷ [])
    ∷ ValueHistory.truncating 1
    ∷ []

abbrev set_once : List ValueHistory.Change
set_once = ValueHistory.setting (0x68 ∷ []) ∷ []

hi-IsPadded : IsPadded hi
unfolding effective_bytes find_first_null
hi-IsPadded = refl

call_all-derived_eq_example :
    ((t : Bytes) × Trace 4 (content hi) cut_short (call_all hi cut_short).1 t
      × ((call_all hi cut_short).0.bytes ≡ pad 4 t))
    × ((derived_eq (call_all hi cut_short).0 (call_all hi set_once).0 ≡ true)
        ↔ (cmp (call_all hi cut_short).0 (call_all hi set_once).0 ≡ eq))
call_all-derived_eq_example =
    call_all-derived_eq hi hi cut_short set_once (omega arith) (hi-IsFixedStr, hi-IsPadded)
      (hi-IsFixedStr, hi-IsPadded)
      ((omega arith, (tt, (omega arith, (tt, tt)))), (tt, (tt, (tt, (tt, tt)))))
      ((omega arith, tt), (tt, tt))

-- A string that does not fit, the same one cut, characters, and a cut.
abbrev pushes : List BuilderHistory.Change
pushes =
    BuilderHistory.pushing smiling
    ∷ BuilderHistory.pushing_lossy smiling
    ∷ BuilderHistory.pushing_char 0xe9
    ∷ BuilderHistory.pushing_char 0x1f60a
    ∷ BuilderHistory.pushing_char 0
    ∷ BuilderHistory.cutting 2
    ∷ []

act_all-Trace_example :
    BuilderMachine.Trace 4
      (text (default 4))
      pushes
      (act_all (default 4) pushes).1
      (text (act_all (default 4) pushes).0)
    × IsBuf (act_all (default 4) pushes).0
    × (length (text (act_all (default 4) pushes).0) ≤ 4)
    × All (λ r. r ≢ panic) (act_all (default 4) pushes).1
act_all-Trace_example =
    act_all-Trace (default 4) pushes (default-IsBuf 4 (omega arith))
      (tt, (omega arith, (tt, (tt, (tt, (tt, tt))))))
