-- ===== src/Core/Machine.antt =====
-- `FixedStr` of src/fs_core.rs as a machine on the content that it shows.
use fixed_str.Common.{
  ℕ, ◌≤◌, ◌<◌, ◌≡◌, List, [], ◌∷◌, min, length, take, set, arith, length-take, length-set,
}
use fixed_str.Error.{Outcome, ok, err, panic, overflow}
use fixed_str.Utf8.{Bytes}
use fixed_str.Helpers.{find_first_null}
use fixed_str.Helpers.Null.{find_first_null-le}
use fixed_str.Helpers.Search.{IsCut}
use fixed_str.EffectiveBytes.{effective_bytes}
use fixed_str.EffectiveBytes.Content.{length-effective_bytes}
use fixed_str.Core
use fixed_str.Core.{FixedStr, Call, set_lossy, clear, truncate, write_byte}
use fixed_str.Core.History.{Change, setting, setting_lossy, clearing, truncating, writing}

-- A call on the value: the state that it leaves, and how it ended.
unfoldable pub call : {N : ℕ} → FixedStr N → Change → Call N (Unit {0})
call fs (setting input) = Core.set fs input
call fs (setting_lossy input) = set_lossy fs input
call fs clearing = (clear fs, ok tt)
call fs (truncating n) = truncate fs n
call fs (writing i b) = write_byte fs i b

unfoldable pub call_all :
    {N : ℕ} → FixedStr N → List Change → FixedStr N × List (Outcome (Unit {0}))
unfolding call
call_all fs [] = (fs, [])
call_all fs (c ∷ cs) = let rest = call_all (call fs c).0 cs in (rest.0, (call fs c).1 ∷ rest.1)

-- The machine: a content of at most `N` bytes, a call, how it ends, and the content afterwards. A
-- write behind the content leaves it, and can show bytes that stood behind it.
pub data Step (N : ℕ) : Bytes → Change → Outcome (Unit {0}) → Bytes → Type 0 where
  set_fits :
      (t s : Bytes) → find_first_null s ≤ N → Step N t (setting s) (ok tt) (effective_bytes s)
  set_full :
      (t s : Bytes)
      → N < find_first_null s
      → Step N t (setting s) (err (overflow N (find_first_null s))) t
  set_part :
      (t s : Bytes) (n : ℕ)
      → IsCut (effective_bytes s) (min N (find_first_null (effective_bytes s))) n
      → Step N t (setting_lossy s) (ok tt) (take n (effective_bytes s))
  emptied : (t : Bytes) → Step N t clearing (ok tt) []
  shortened : (t : Bytes) (n : ℕ) → Step N t (truncating n) (ok tt) (take n t)
  written :
      (t : Bytes) (i b : ℕ)
      → i < length t
      → Step N t (writing i b) (ok tt) (effective_bytes (set t i b))
  written_behind :
      (t u : Bytes) (i b : ℕ)
      → length t ≤ i
      → i < N
      → take (length t) u ≡ t
      → length u ≤ N
      → Step N t (writing i b) (ok tt) u
  refused : (t : Bytes) (i b : ℕ) → N ≤ i → Step N t (writing i b) panic t

pub data Trace (N : ℕ) : Bytes → List Change → List (Outcome (Unit {0})) → Bytes → Type 0 where
  stopped : (t : Bytes) → Trace N t [] [] t
  called :
      (t u v : Bytes) (c : Change) (cs : List Change) (r : Outcome (Unit {0}))
      (rs : List (Outcome (Unit {0})))
      → Step N t c r u
      → Trace N u cs rs v
      → Trace N t (c ∷ cs) (r ∷ rs) v

Step-IsBounded :
    {N : ℕ} {t u : Bytes} {c : Change} {r : Outcome (Unit {0})}
    → Step N t c r u
    → length t ≤ N
    → length u ≤ N
Step-IsBounded (set_fits t s fits) h = omega (arith, length-effective_bytes s)
Step-IsBounded (set_full t s big) h = h
Step-IsBounded (set_part t s n cut) h = omega (arith, length-take n (effective_bytes s), cut.within)
Step-IsBounded (emptied t) h = omega arith
Step-IsBounded (shortened t n) h = omega (arith, length-take n t)
Step-IsBounded (written t i b inside) h =
    omega
      (arith, length-effective_bytes (set t i b), find_first_null-le (set t i b), length-set t i b)
Step-IsBounded (written_behind t u i b behind inside front fits) h = fits
Step-IsBounded (refused t i b outside) h = h

pub Trace-IsBounded :
    {N : ℕ} {t u : Bytes} {cs : List Change} {rs : List (Outcome (Unit {0}))}
    → Trace N t cs rs u
    → length t ≤ N
    → length u ≤ N
Trace-IsBounded (stopped t) h = h
Trace-IsBounded (called t u v c cs r rs step later) h =
    Trace-IsBounded later (Step-IsBounded step h)
