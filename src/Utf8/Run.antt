-- ===== src/Utf8/Run.antt =====
-- What the automaton says of a list cut in two, and of the first character.
use fixed_str.Common.{
  ℕ, zero, suc, ◌≤◌, ◌<◌, ◌≡◌, refl, ◌≢◌, ◌↔◌, true, false, Option, none, some, [], ◌∷◌, ◌++◌,
  arith, take, drop, length, All, Option-cases, inl, inr, ap,
}
use fixed_str.Utf8.{
  Bytes, State, start, tail1, tail2, tail3, after_e0, after_ed, after_f0, after_f4, step, run,
  ◌>>=◌, IsUtf8, is_utf8,
}

pub is_utf8_iff : (s : Bytes) → (is_utf8 s ≡ true) ↔ IsUtf8 s
unfolding is_utf8
is_utf8_iff s = ground arith

pub is_utf8-false : (s : Bytes) → is_utf8 s ≡ false → ¬ IsUtf8 s
unfolding is_utf8
is_utf8-false s h = ground arith

pub run-append : (q : State) (xs ys : Bytes) → run q (xs ++ ys) ≡ (run q xs >>= λ q'. run q' ys)
run-append q [] ys = refl
run-append q (x ∷ xs) ys = go (step q x) (λ q'. run-append q' xs ys)
  where
    go :
        (o : Option State)
        → ((q' : State) → run q' (xs ++ ys) ≡ (run q' xs >>= λ r. run r ys))
        → (o >>= λ q'. run q' (xs ++ ys)) ≡ ((o >>= λ q'. run q' xs) >>= λ r. run r ys)
    go none ih = refl
    go (some q') ih = ih q'

pub IsUtf8-append : (xs ys : Bytes) → IsUtf8 xs → IsUtf8 ys → IsUtf8 (xs ++ ys)
IsUtf8-append xs ys hx hy = rw (run-append start xs ys, hx) hy

pub IsUtf8-append_right : (xs ys : Bytes) → IsUtf8 xs → IsUtf8 (xs ++ ys) → IsUtf8 ys
IsUtf8-append_right xs ys hx h = rw (run-append start xs ys, hx) at h

-- How many continuation bytes are due.
unfoldable pub need : State → ℕ
need start = 0
need tail1 = 1
need tail2 = 2
need tail3 = 3
need after_e0 = 2
need after_ed = 2
need after_f0 = 3
need after_f4 = 3

abbrev pub IsContinuation : ℕ → Type 0
IsContinuation b = (0x80 ≤ b) × (b ≤ 0xbf)

-- A byte inside a character is a continuation byte, and one fewer is due behind it.
need-step :
    (q q' : State) (b n : ℕ)
    → need q ≡ suc n
    → step q b ≡ some q'
    → (need q' ≡ n) × IsContinuation b
unfolding need step
need-step start q' b n h e = absurd (omega arith)
need-step tail1 q' b n h e = ground arith
need-step _ q' b n h e = ground arith

need_start : need start ≡ 0
unfolding need
need_start = refl

-- Some byte is due, so the list cannot end here.
need-start : (q : State) (n : ℕ) → need q ≡ suc n → some q ≢ some start
need-start q n h e = let e' : q ≡ start = cc in omega (arith, need_start, ap need e')

need-zero : (q : State) → need q ≡ 0 → q ≡ start
unfolding need
need-zero start h = refl
need-zero tail1 h = absurd (omega arith)
need-zero _ h = absurd (omega arith)

-- What the bytes due in state `q` are, if the list ends between characters.
pub record Rest (n : ℕ) (s : Bytes) : Type 0 where
  pub fits : n ≤ length s
  pub due : All IsContinuation (take n s)
  pub closed : IsUtf8 (drop n s)

pub run-Rest : (q : State) (s : Bytes) (n : ℕ) → need q ≡ n → run q s ≡ some start → Rest n s
run-Rest q s zero h e = record { fits = omega arith; due = tt; closed = rw (need-zero q h) at e }
run-Rest q [] (suc n) h e = absurd (need-start q n h e)
run-Rest q (b ∷ s) (suc n) h e = elim (Option-cases (step q b)) [
  | inl stuck ↦ cc
  | inr (q', e') ↦
      let (few, cont) = need-step q q' b n h e' in
      let rest = run-Rest q' s n few (rw e' at e) in
      record { fits = omega (arith, rest.fits); due = (cont, rest.due); closed = rest.closed }
]

-- Before the bytes that are due have come, the list does not end between characters.
pub run_partial :
    (q : State) (s : Bytes) (n m : ℕ) → need q ≡ n → m < n → run q (take m s) ≢ some start
run_partial q s zero zero h lt e = absurd (omega arith)
run_partial q s (suc n) zero h lt e = need-start q n h e
run_partial q [] zero (suc m) h lt e = absurd (omega arith)
run_partial q [] (suc n) (suc m) h lt e = need-start q n h e
run_partial q (b ∷ s) zero (suc m) h lt e = absurd (omega arith)
run_partial q (b ∷ s) (suc n) (suc m) h lt e = elim (Option-cases (step q b)) [
  | inl stuck ↦ cc
  | inr (q', e') ↦ run_partial q' s n m (need-step q q' b n h e').0 (omega arith) (rw e' at e)
]

-- The bytes that are due complete the character.
pub run-take :
    (q : State) (s : Bytes) (n : ℕ)
    → need q ≡ n
    → run q s ≡ some start
    → run q (take n s) ≡ some start
run-take q s zero h e = ap some (need-zero q h)
run-take q [] (suc n) h e = e
run-take q (b ∷ s) (suc n) h e = elim (Option-cases (step q b)) [
  | inl stuck ↦ cc
  | inr (q', e') ↦ rw e' (run-take q' s n (need-step q q' b n h e').0 (rw e' at e))
]
