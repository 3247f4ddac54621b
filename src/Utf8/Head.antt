-- ===== src/Utf8/Head.antt =====
-- The first character of a string: the well-formed sequences that begin with a byte.
use fixed_str.Common.{
  ℕ, ◌+◌, ◌-◌, ◌*◌, ◌≤◌, ◌≡◌, ◌≢◌, refl, ◌⊎◌, true, [], ◌∷◌, ◌++◌, some, arith, Option-cases, inl,
  inr, sym, ap, ◌∙◌, subst,
}
use fixed_str.Utf8.{
  Bytes, State, start, tail1, tail2, tail3, after_e0, after_ed, after_f0, after_f4, lead, step, run,
  IsUtf8, is_scalar, encode_utf8,
}
use fixed_str.Utf8.Run.{IsContinuation}

-- A byte that leads on from `q`.
record Next (q : State) (s : Bytes) : Type 0 where
  byte : ℕ
  rest : Bytes
  state : State
  split : s ≡ byte ∷ rest
  moves : step q byte ≡ some state
  ends : run state rest ≡ some start

byte_ahead : (q : State) (s : Bytes) → q ≢ start → run q s ≡ some start → Next q s
byte_ahead q [] ne e = absurd (ne (cc))
byte_ahead q (b ∷ s) ne e = elim (Option-cases (step q b)) [
  | inl stuck ↦ cc
  | inr (q', e') ↦ record {
    byte = b;
    rest = s;
    state = q';
    split = refl;
    moves = e';
    ends = rw e' at e;
  }
]

-- One byte between `lo` and `hi`, and then what `P` says.
abbrev Follows : ℕ → ℕ → (ℕ → Bytes → Type 0) → Bytes → Type 0
Follows lo hi P s = (b : ℕ) × (r : Bytes) × (s ≡ b ∷ r) × (lo ≤ b) × (b ≤ hi) × P b r

-- A state that takes a byte between `lo` and `hi` to the state `q'`.
abbrev Leads : State → ℕ → ℕ → State → Type 0
Leads q lo hi q' = (b : ℕ) (q'' : State) → step q b ≡ some q'' → (q'' ≡ q') × (lo ≤ b) × (b ≤ hi)

run-Follows :
    (q q' : State) (lo hi : ℕ) (s : Bytes)
    → q ≢ start
    → Leads q lo hi q'
    → run q s ≡ some start
    → Follows lo hi (λ b r. run q' r ≡ some start) s
run-Follows q q' lo hi s ne leads e =
    let n = byte_ahead q s ne e in
    let (same, low, high) = leads n.byte n.state n.moves in
    (n.byte, n.rest, n.split, low, high, rw same at n.ends)

tail1-Leads : Leads tail1 0x80 0xbf start
unfolding step
tail1-Leads b q e = ground arith

tail2-Leads : Leads tail2 0x80 0xbf tail1
unfolding step
tail2-Leads b q e = ground arith

tail3-Leads : Leads tail3 0x80 0xbf tail2
unfolding step
tail3-Leads b q e = ground arith

-- The first character of a string, and the rest.
pub record Head (s : Bytes) : Type 0 where
  pub char : ℕ
  pub rest : Bytes
  pub scalar : is_scalar char ≡ true
  pub split : s ≡ encode_utf8 char ++ rest
  pub valid : IsUtf8 rest

-- The scalar value of two, three or four bytes, where they are in the ranges of the table.
two_bytes_char :
    (b b1 : ℕ) (r : Bytes) → 0xc2 ≤ b → b ≤ 0xdf → IsContinuation b1 → IsUtf8 r → Head (b ∷ b1 ∷ r)
unfolding encode_utf8
two_bytes_char b b1 r low high h1 valid = record {
  char = (b - 0xc0) * 0x40 + (b1 - 0x80);
  rest = r;
  scalar = ground arith;
  split = ground arith;
  valid = valid;
}

three_bytes_char :
    (b b1 b2 : ℕ) (r : Bytes)
    → 0xe0 ≤ b
    → b ≤ 0xef
    → IsContinuation b1
    → (0xe1 ≤ b) ⊎ (0xa0 ≤ b1)
    → (b ≢ 0xed) ⊎ (b1 ≤ 0x9f)
    → IsContinuation b2
    → IsUtf8 r
    → Head (b ∷ b1 ∷ b2 ∷ r)
unfolding encode_utf8
three_bytes_char b b1 b2 r low high h1 long surrogate h2 valid = record {
  char = (b - 0xe0) * 0x1000 + ((b1 - 0x80) * 0x40 + (b2 - 0x80));
  rest = r;
  scalar = ground arith;
  split = ground arith;
  valid = valid;
}

four_bytes_char :
    (b b1 b2 b3 : ℕ) (r : Bytes)
    → 0xf0 ≤ b
    → b ≤ 0xf4
    → IsContinuation b1
    → (0xf1 ≤ b) ⊎ (0x90 ≤ b1)
    → (b ≢ 0xf4) ⊎ (b1 ≤ 0x8f)
    → IsContinuation b2
    → IsContinuation b3
    → IsUtf8 r
    → Head (b ∷ b1 ∷ b2 ∷ b3 ∷ r)
unfolding encode_utf8
four_bytes_char b b1 b2 b3 r low high h1 long top h2 h3 valid = record {
  char = (b - 0xf0) * 0x40000 + ((b1 - 0x80) * 0x1000 + ((b2 - 0x80) * 0x40 + (b3 - 0x80)));
  rest = r;
  scalar = ground arith;
  split = ground arith;
  valid = valid;
}

module _ (b : ℕ) (s : Bytes) (q : State) (lo hi : ℕ) (ne : q ≢ start) (low : 0x80 ≤ lo)
    (high : hi ≤ 0xbf) (e : run q s ≡ some start) where
  three_follow :
      Leads q lo hi tail1
      → 0xe0 ≤ b
      → b ≤ 0xef
      → (0xe1 ≤ b) ⊎ (0xa0 ≤ lo)
      → (b ≢ 0xed) ⊎ (hi ≤ 0x9f)
      → Head (b ∷ s)
  three_follow leads bl bh long surrogate =
      let (b1, s1, e1, lo1, hi1, r1) = run-Follows q tail1 lo hi s ne leads e in
      let (b2, r, e2, lo2, hi2, valid) =
        run-Follows tail1 start 0x80 0xbf s1 (λ h. cc) tail1-Leads r1 in
      subst (λ x. Head (b ∷ x)) (sym (e1 ∙ ap (λ x. b1 ∷ x) e2))
        (three_bytes_char b b1 b2 r bl bh (omega arith, omega arith) (ground arith) (ground arith)
          (lo2, hi2) valid)

  four_follow :
      Leads q lo hi tail2
      → 0xf0 ≤ b
      → b ≤ 0xf4
      → (0xf1 ≤ b) ⊎ (0x90 ≤ lo)
      → (b ≢ 0xf4) ⊎ (hi ≤ 0x8f)
      → Head (b ∷ s)
  four_follow leads bl bh long top =
      let (b1, s1, e1, lo1, hi1, r1) = run-Follows q tail2 lo hi s ne leads e in
      let (b2, s2, e2, lo2, hi2, r2) =
        run-Follows tail2 tail1 0x80 0xbf s1 (λ h. cc) tail2-Leads r1 in
      let (b3, r, e3, lo3, hi3, valid) =
        run-Follows tail1 start 0x80 0xbf s2 (λ h. cc) tail1-Leads r2 in
      subst (λ x. Head (b ∷ x)) (sym (e1 ∙ ap (λ x. b1 ∷ x) (e2 ∙ ap (λ x. b2 ∷ x) e3)))
        (four_bytes_char b b1 b2 b3 r bl bh (omega arith, omega arith) (ground arith) (ground arith)
          (lo2, hi2) (lo3, hi3) valid)

lead-Head : (q : State) (b : ℕ) (s : Bytes) → lead b ≡ some q → run q s ≡ some start → Head (b ∷ s)
unfolding lead step encode_utf8
lead-Head start b s e r = record {
  char = b;
  rest = s;
  scalar = ground arith;
  split = ground arith;
  valid = r;
}
lead-Head tail1 b s e r =
    let (b1, s1, e1, lo1, hi1, r1) = run-Follows tail1 start 0x80 0xbf s (λ h. cc) tail1-Leads r in
    subst (λ x. Head (b ∷ x)) (sym e1)
      (two_bytes_char b b1 s1 (ground arith) (ground arith) (lo1, hi1) r1)
lead-Head tail2 b s e r =
    three_follow b s tail2 0x80 0xbf (λ h. cc) (omega arith) (omega arith) r tail2-Leads
      (ground arith) (ground arith) (inl (ground arith)) (inl (ground arith))
lead-Head after_e0 b s e r =
    three_follow b s after_e0 0xa0 0xbf (λ h. cc) (omega arith) (omega arith) r
      (λ b q e. ground arith) (ground arith) (ground arith) (inr (omega arith)) (inl (ground arith))
lead-Head after_ed b s e r =
    three_follow b s after_ed 0x80 0x9f (λ h. cc) (omega arith) (omega arith) r
      (λ b q e. ground arith) (ground arith) (ground arith) (inl (ground arith)) (inr (omega arith))
lead-Head tail3 b s e r =
    four_follow b s tail3 0x80 0xbf (λ h. cc) (omega arith) (omega arith) r tail3-Leads
      (ground arith) (ground arith) (inl (ground arith)) (inl (ground arith))
lead-Head after_f0 b s e r =
    four_follow b s after_f0 0x90 0xbf (λ h. cc) (omega arith) (omega arith) r
      (λ b q e. ground arith) (ground arith) (ground arith) (inr (omega arith)) (inl (ground arith))
lead-Head after_f4 b s e r =
    four_follow b s after_f4 0x80 0x8f (λ h. cc) (omega arith) (omega arith) r
      (λ b q e. ground arith) (ground arith) (ground arith) (inl (ground arith)) (inr (omega arith))

pub IsUtf8-Head : (b : ℕ) (s : Bytes) → IsUtf8 (b ∷ s) → Head (b ∷ s)
unfolding step
IsUtf8-Head b s h = elim (Option-cases (lead b)) [
  | inl stuck ↦ cc
  | inr (q, e) ↦ lead-Head q b s e (rw e at h)
]
