-- ===== src/Helpers/Chars.antt =====
-- The first character of a valid string, as `find_valid_boundary` reads it by bit masks.
use fixed_str.Common.{
  ℕ, zero, suc, ◌<◌, ◌≡◌, refl, Bool, true, false, ◌==◌, ◌||◌, not, leb, ◌&&◌, Option, none, some,
  ◌∷◌, take, arith, bit_and, Option-cases, inl, inr,
}
use fixed_str.Common.Bits.{passes, passes-lt}
use fixed_str.Utf8.{Bytes, State, step, lead, IsUtf8}
use fixed_str.Utf8.Run.{need, Rest, run-Rest, run_partial, run-take, IsContinuation}
use fixed_str.Helpers.{lead_width}

abbrev width_agrees : ℕ → Bool
width_agrees b = elim (lead b) [
  | none ↦ true
  | some q ↦ elim (lead_width b) [ none ↦ false | some w ↦ w == suc (need q) ]
]

width_table : passes width_agrees 256 ≡ true
unfolding passes lead lead_width need
width_table = refl

lead_small : (b : ℕ) (q : State) → lead b ≡ some q → b < 256
unfolding lead
lead_small b q e = ground arith

-- The masks read the width that the table of well-formed sequences gives.
pub lead_width-need : (b : ℕ) (q : State) → lead b ≡ some q → lead_width b ≡ some (suc (need q))
lead_width-need b q e =
    agrees (lead b) (lead_width b) q e (passes-lt width_agrees 256 (lead_small b q e) width_table)
  where
    agrees :
        (o : Option State) (w : Option ℕ) (q : State)
        → o ≡ some q
        → (elim o [ none ↦ true | some q' ↦ elim w [ none ↦ false | some v ↦ v == suc (need q') ] ])
          ≡ true
        → w ≡ some (suc (need q))
    agrees o w q e h = ground arith

continuation_table :
    passes (λ b. not (leb 0x80 b && leb b 0xbf) || (bit_and b 0xc0 == 0x80)) 256 ≡ true
unfolding passes
continuation_table = refl

pub IsContinuation-mask : (b : ℕ) → IsContinuation b → (bit_and b 0xc0 == 0x80) ≡ true
IsContinuation-mask b h =
    let small : b < 256 = omega (arith, h.1) in
    ground (arith, passes-lt _ 256 small continuation_table)

-- A valid string that is not empty begins with a character of `suc n` bytes, and no shorter prefix
-- of it is a string.
pub record FirstChar (b : ℕ) (s : Bytes) (n : ℕ) : Type 0 where
  pub width : lead_width b ≡ some (suc n)
  pub rest : Rest n s
  pub char : IsUtf8 (take (suc n) (b ∷ s))
  pub whole : (m : ℕ) → 0 < m → m < suc n → ¬ IsUtf8 (take m (b ∷ s))

pub first_char : (b : ℕ) (s : Bytes) → IsUtf8 (b ∷ s) → (n : ℕ) × FirstChar b s n
unfolding step
first_char b s h = elim (Option-cases (lead b)) [
  | inl stuck ↦ cc
  | inr (q, e) ↦ (
    need q,
    record {
      width = lead_width-need b q e;
      rest = run-Rest q s (need q) refl (rw e at h);
      char = rw e (run-take q s (need q) refl (rw e at h));
      whole = partial q e;
    },
  )
]
  where
    partial :
        (q : State)
        → lead b ≡ some q
        → (m : ℕ) → 0 < m
        → m < suc (need q)
        → ¬ IsUtf8 (take m (b ∷ s))
    partial q e zero pos lt v = absurd (omega arith)
    partial q e (suc m) pos lt v = run_partial q s (need q) m refl (omega arith) (rw e at v)
