-- ===== src/Buffer/Machine.antt =====
-- The builder of src/fs_buffer.rs as a machine on the text that it holds.
use fixed_str.Common.{
  ℕ, ◌-◌, ◌≤◌, ◌<◌, ◌≢◌, true, false, Bool, List, [], ◌∷◌, ◌++◌, min, length, take, All, arith,
  length-append, length-take,
}
use fixed_str.Error.{Outcome, ok, err, panic, overflow, ◌>>◌}
use fixed_str.Utf8.{Bytes}
use fixed_str.Helpers.{find_first_null}
use fixed_str.Helpers.Search.{IsCut}
use fixed_str.EffectiveBytes.{effective_bytes}
use fixed_str.Buffer.{FixedStrBuf, try_push_str, try_push_char, push_str_lossy, clear, truncate}
use fixed_str.Buffer.Char.{added}
use fixed_str.Buffer.History.{Change, pushing, pushing_lossy, pushing_char, clearing, cutting}

-- What the caller sees of a call: a `Result` or a `bool`.
abbrev pub reply : Outcome (Unit {0}) → Outcome Bool
reply r = r >> ok true

-- A call on the builder: the state that it leaves, and the reply.
unfoldable pub act : {N : ℕ} → FixedStrBuf N → Change → FixedStrBuf N × Outcome Bool
act b (pushing s) = ((try_push_str b s).0, reply (try_push_str b s).1)
act b (pushing_lossy s) = push_str_lossy b s
act b (pushing_char c) = ((try_push_char b c).0, reply (try_push_char b c).1)
act b clearing = (clear b, ok true)
act b (cutting new_len) = ((truncate b new_len).0, reply (truncate b new_len).1)

unfoldable pub act_all : {N : ℕ} → FixedStrBuf N → List Change → FixedStrBuf N × List (Outcome Bool)
unfolding act
act_all b [] = (b, [])
act_all b (c ∷ cs) = let rest = act_all (act b c).0 cs in (rest.0, (act b c).1 ∷ rest.1)

-- The machine: a text of at most `N` bytes, a call, its reply, and the text afterwards.
pub data Step (N : ℕ) : Bytes → Change → Outcome Bool → Bytes → Type 0 where
  push_fits :
      (t s : Bytes)
      → length (effective_bytes s) ≤ N - length t
      → Step N t (pushing s) (ok true) (t ++ effective_bytes s)
  push_full :
      (t s : Bytes)
      → N - length t < length (effective_bytes s)
      → Step N t (pushing s) (err (overflow (N - length t) (length (effective_bytes s)))) t
  char_fits :
      (t : Bytes) (c : ℕ)
      → length (added c) ≤ N - length t
      → Step N t (pushing_char c) (ok true) (t ++ added c)
  char_full :
      (t : Bytes) (c : ℕ)
      → N - length t < length (added c)
      → Step N t (pushing_char c) (err (overflow (N - length t) (length (added c)))) t
  lossy_whole :
      (t s : Bytes) → length s ≤ N - length t → Step N t (pushing_lossy s) (ok true) (t ++ s)
  lossy_part :
      (t s : Bytes) (n : ℕ)
      → N - length t < length s
      → IsCut s (min (N - length t) (find_first_null s)) n
      → Step N t (pushing_lossy s) (ok false) (t ++ take n s)
  emptied : (t : Bytes) → Step N t clearing (ok true) []
  shortened : (t : Bytes) (new_len : ℕ) → Step N t (cutting new_len) (ok true) (take new_len t)

pub data Trace (N : ℕ) : Bytes → List Change → List (Outcome Bool) → Bytes → Type 0 where
  stopped : (t : Bytes) → Trace N t [] [] t
  called :
      (t u v : Bytes) (c : Change) (cs : List Change) (r : Outcome Bool) (rs : List (Outcome Bool))
      → Step N t c r u
      → Trace N u cs rs v
      → Trace N t (c ∷ cs) (r ∷ rs) v

-- The machine never panics, and never holds more than `N` bytes.
Step-IsBounded :
    {N : ℕ} {t u : Bytes} {c : Change} {r : Outcome Bool}
    → Step N t c r u
    → length t ≤ N
    → (length u ≤ N) × (r ≢ panic)
Step-IsBounded (push_fits t s fits) h = (omega (arith, length-append t (effective_bytes s)), cc)
Step-IsBounded (push_full t s big) h = (h, cc)
Step-IsBounded (char_fits t c fits) h = (omega (arith, length-append t (added c)), cc)
Step-IsBounded (char_full t c big) h = (h, cc)
Step-IsBounded (lossy_whole t s fits) h = (omega (arith, length-append t s), cc)
Step-IsBounded (lossy_part t s n big cut) h =
    (omega (arith, length-append t (take n s), length-take n s, cut.within), cc)
Step-IsBounded (emptied t) h = (omega arith, cc)
Step-IsBounded (shortened t new_len) h = (omega (arith, length-take new_len t), cc)

pub Trace-IsBounded :
    {N : ℕ} {t u : Bytes} {cs : List Change} {rs : List (Outcome Bool)}
    → Trace N t cs rs u
    → length t ≤ N
    → (length u ≤ N) × All (λ r. r ≢ panic) rs
Trace-IsBounded (stopped t) h = (h, tt)
Trace-IsBounded (called t u v c cs r rs step later) h =
    let (h', sound) = Step-IsBounded step h in
    let (h'', rest) = Trace-IsBounded later h' in (h'', (sound, rest))
