-- ===== src/EffectiveBytes/Write.antt =====
-- What a write of one byte does to the bytes before the first null.
use fixed_str.Common.{
  ℕ, zero, suc, ◌≤◌, ◌<◌, ◌≡◌, ◌≢◌, refl, ◌∙◌, sym, [], ◌∷◌, take, set, arith, inl, inr, ap,
  take-take,
}
use native.Mathlib.Decide.{ℕ_discrete}
use fixed_str.Utf8.{Bytes}
use fixed_str.Helpers.{find_first_null}
use fixed_str.Helpers.Null.{Null-cases, find_first_null-le}
use fixed_str.EffectiveBytes.{effective_bytes}
use fixed_str.EffectiveBytes.Content.{
  effective_bytes_idem, effective_bytes-append_NoNull, effective_bytes-null,
}

effective_bytes-cons : (b : ℕ) (s : Bytes) → b ≢ 0 → effective_bytes (b ∷ s) ≡ b ∷ effective_bytes s
effective_bytes-cons b s h = effective_bytes-append_NoNull (b ∷ []) s (h, tt)

same_tail :
    (b : ℕ) (s t : Bytes)
    → effective_bytes s ≡ effective_bytes t
    → effective_bytes (b ∷ s) ≡ effective_bytes (b ∷ t)
same_tail b s t e = elim (ℕ_discrete b 0) [
  | yes z ↦ rw z (effective_bytes-null s ∙ sym (effective_bytes-null t))
  | no h ↦ effective_bytes-cons b s h ∙ ap (λ r. b ∷ r) e ∙ sym (effective_bytes-cons b t h)
]

-- A write inside the content is a write to the content.
pub effective_bytes-set :
    (s : Bytes) (i b : ℕ)
    → i < find_first_null s
    → effective_bytes (set s i b) ≡ effective_bytes (set (effective_bytes s) i b)
effective_bytes-set [] i b h = absurd (omega (arith, find_first_null-le []))
effective_bytes-set (x ∷ s) zero b h = elim (Null-cases x s) [
  | inl (z, e) ↦ absurd (omega (arith, e))
  | inr (z, e) ↦
      rw (effective_bytes-cons x s z)
        (same_tail b s (effective_bytes s) (sym (effective_bytes_idem s)))
]
effective_bytes-set (x ∷ s) (suc i) b h = elim (Null-cases x s) [
  | inl (z, e) ↦ absurd (omega (arith, e))
  | inr (z, e) ↦ rw (effective_bytes-cons x s z) (
      same_tail x (set s i b) (set (effective_bytes s) i b)
        (effective_bytes-set s i b (omega (arith, e))))
]

-- A write behind the content leaves it at the front.
pub take-effective_bytes-set :
    (s : Bytes) (i b : ℕ)
    → find_first_null s ≤ i
    → take (find_first_null s) (effective_bytes (set s i b)) ≡ effective_bytes s
unfolding effective_bytes
take-effective_bytes-set [] i b h =
    take-take (find_first_null []) (find_first_null []) [] (omega arith)
take-effective_bytes-set (x ∷ s) zero b h = elim (Null-cases x s) [
  | inl (z, e) ↦ rw e refl
  | inr (z, e) ↦ absurd (omega (arith, e))
]
take-effective_bytes-set (x ∷ s) (suc i) b h = elim (Null-cases x s) [
  | inl (z, e) ↦ rw e refl
  | inr (z, e) ↦ rw e (
      ap (take (suc (find_first_null s))) (effective_bytes-cons x (set s i b) z)
      ∙ ap (λ r. x ∷ r) (take-effective_bytes-set s i b (omega (arith, e))))
]
