-- ===== src/Utf8/Lossy.antt =====
-- `String::from_utf8_lossy`: every maximal part of a character that the bytes do not complete becomes
-- U+FFFD. It is the automaton of `from_utf8` with the bytes of the character it stands in.
use fixed_str.Common.{
  ℕ, ◌≡◌, ◌↔◌, refl, sym, ◌∙◌, ap, none, some, [], ◌∷◌, ◌++◌, append_assoc, append-nil, inl, inr,
  Option-cases, take, drop, take-append-drop,
}
use fixed_str.Utf8.{Bytes, State, start, tail1, lead, step, run, IsUtf8}
use fixed_str.Utf8.Run.{run-append, IsUtf8-append}

-- U+FFFD
abbrev pub replacement : Bytes
replacement = 0xef ∷ 0xbf ∷ 0xbd ∷ []

-- What a byte makes of the decoder: the bytes that are put out, the next state, and the bytes of
-- the character begun.
record Decoded : Type 0 where
  out : Bytes
  state : State
  pending : Bytes

-- The state behind a byte that was taken.
abbrev taken : Bytes → State → Decoded
taken pending start = record { out = pending; state = start; pending = [] }
taken pending q = record { out = []; state = q; pending = pending }

-- A byte where a character begins.
abbrev first : ℕ → Decoded
first b = elim (lead b) [
  | some q ↦ taken (b ∷ []) q
  | none ↦ record { out = replacement; state = start; pending = [] }
]

-- A byte that does not go on with a character: the part is replaced, and the byte looked at again.
abbrev refused : State → ℕ → Decoded
refused start b = first b
refused q b = record (first b) { out = replacement ++ (first b).out }

abbrev decode_step : State → Bytes → ℕ → Decoded
decode_step q pending b = elim (step q b) [
  | some q' ↦ taken (pending ++ b ∷ []) q'
  | none ↦ refused q b
]

abbrev unfinished : State → Bytes
unfinished start = []
unfinished q = replacement

unfoldable pub lossy_run : State → Bytes → Bytes → Bytes
lossy_run q pending [] = unfinished q
lossy_run q pending (b ∷ s) =
    let d = decode_step q pending b in d.out ++ lossy_run d.state d.pending s

unfoldable pub from_utf8_lossy : Bytes → Bytes
from_utf8_lossy s = lossy_run start [] s

replacement-IsUtf8 : IsUtf8 replacement
unfolding step lead
replacement-IsUtf8 = refl

-- The bytes of the character begun lead to the state.
record IsDecoded (d : Decoded) : Type 0 where
  valid : IsUtf8 d.out
  leads : run start d.pending ≡ some d.state

taken-IsDecoded : (q : State) (s : Bytes) → run start s ≡ some q → IsDecoded (taken s q)
taken-IsDecoded start s h = record { valid = h; leads = refl }
taken-IsDecoded tail1 s h = record { valid = refl; leads = h }
taken-IsDecoded _ s h = record { valid = refl; leads = h }

first-IsDecoded : (b : ℕ) → IsDecoded (first b)
unfolding step
first-IsDecoded b = elim (Option-cases (lead b)) [
  | inl bad ↦ rw (first, bad) (record { valid = replacement-IsUtf8; leads = refl })
  | inr (q, e) ↦ rw (first, e) (taken-IsDecoded q (b ∷ []) (rw e refl))
]

refused-IsDecoded : (q : State) (b : ℕ) → IsDecoded (refused q b)
refused-IsDecoded start b = first-IsDecoded b
refused-IsDecoded _ b =
    let good = first-IsDecoded b in
    record {
      valid = IsUtf8-append replacement (first b).out replacement-IsUtf8 good.valid;
      leads = good.leads;
    }

decode_step-IsDecoded :
    (q : State) (pending : Bytes) (b : ℕ)
    → run start pending ≡ some q
    → IsDecoded (decode_step q pending b)
decode_step-IsDecoded q pending b h = elim (Option-cases (step q b)) [
  | inl bad ↦ rw (decode_step, bad) (refused-IsDecoded q b)
  | inr (q', e) ↦
      rw (decode_step, e)
        (taken-IsDecoded q' (pending ++ b ∷ [])
          (rw (run-append start pending (b ∷ []), h) (rw e refl)))
]

lossy_run-IsUtf8 :
    (q : State) (pending s : Bytes) → run start pending ≡ some q → IsUtf8 (lossy_run q pending s)
unfolding lossy_run
lossy_run-IsUtf8 start pending [] h = refl
lossy_run-IsUtf8 _ pending [] h = replacement-IsUtf8
lossy_run-IsUtf8 q pending (b ∷ s) h =
    let d = decode_step q pending b in
    let good = decode_step-IsDecoded q pending b h in
    IsUtf8-append d.out _ good.valid (lossy_run-IsUtf8 d.state d.pending s good.leads)

-- The result is a string, whatever the bytes.
pub from_utf8_lossy-IsUtf8 : (s : Bytes) → IsUtf8 (from_utf8_lossy s)
unfolding from_utf8_lossy
from_utf8_lossy-IsUtf8 s = lossy_run-IsUtf8 start [] s refl

-- A character that goes on behind `pending`.
lossy_run-taken :
    (q : State) (pending s rest : Bytes)
    → ((p : Bytes) → (q ≡ start → p ≡ []) → lossy_run q p s ≡ p ++ rest)
    → (taken pending q).out ++ lossy_run (taken pending q).state (taken pending q).pending s
      ≡ pending ++ rest
lossy_run-taken start pending s rest h = ap (λ t. pending ++ t) (h [] (λ e. refl))
lossy_run-taken _ pending s rest h = h pending (λ e. absurd cc)

lossy_run-some :
    (q q' : State) (pending s : Bytes) (b : ℕ)
    → step q b ≡ some q'
    → lossy_run q pending (b ∷ s)
      ≡ (taken (pending ++ b ∷ []) q').out
        ++ lossy_run (taken (pending ++ b ∷ []) q').state (taken (pending ++ b ∷ []) q').pending s
unfolding lossy_run
lossy_run-some q q' pending s b e =
    ap {A = Decoded} (λ d. d.out ++ lossy_run d.state d.pending s) (rw (decode_step, e) refl)

lossy_run_valid :
    (q : State) (pending xs ys : Bytes)
    → run q xs ≡ some start
    → (q ≡ start → pending ≡ [])
    → lossy_run q pending (xs ++ ys) ≡ pending ++ (xs ++ from_utf8_lossy ys)
unfolding lossy_run from_utf8_lossy
lossy_run_valid q pending [] ys h nil = let e : q ≡ start = cc in rw (e, nil e) refl
lossy_run_valid q pending (b ∷ xs) ys h nil = elim (Option-cases (step q b)) [
  | inl stuck ↦ cc
  | inr (q', e) ↦
      lossy_run-some q q' pending (xs ++ ys) b e
      ∙ (lossy_run-taken q' (pending ++ b ∷ []) (xs ++ ys) (xs ++ from_utf8_lossy ys)
            (λ p nil'. lossy_run_valid q' p xs ys (rw e at h) nil')
          ∙ append_assoc pending (b ∷ []) (xs ++ from_utf8_lossy ys))
]

-- A string in front is kept, and what is behind it decoded on its own.
pub from_utf8_lossy-append :
    (xs ys : Bytes) → IsUtf8 xs → from_utf8_lossy (xs ++ ys) ≡ xs ++ from_utf8_lossy ys
unfolding from_utf8_lossy
from_utf8_lossy-append xs ys h = lossy_run_valid start [] xs ys h (λ e. refl)

-- The strings are what it does not change.
pub from_utf8_lossy_iff : (s : Bytes) → (from_utf8_lossy s ≡ s) ↔ IsUtf8 s
unfolding from_utf8_lossy lossy_run
from_utf8_lossy_iff s = (
  λ e. rw e at (from_utf8_lossy-IsUtf8 s),
  λ v. rw (append-nil s) at (from_utf8_lossy-append s [] v),
)

pub from_utf8_lossy-take :
    (n : ℕ) (s : Bytes)
    → IsUtf8 (take n s)
    → from_utf8_lossy s ≡ take n s ++ from_utf8_lossy (drop n s)
from_utf8_lossy-take n s h =
    ap from_utf8_lossy (sym (take-append-drop n s)) ∙ from_utf8_lossy-append (take n s) (drop n s) h
