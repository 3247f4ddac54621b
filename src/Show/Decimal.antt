-- ===== src/Show/Decimal.antt =====
-- The decimal digits of a `usize`: what they stand for, and that they end where something else begins.
use fixed_str.Common.{
  ℕ, zero, suc, ◌+◌, ◌-◌, ◌*◌, ◌%◌, ◌/◌, ◌≤◌, ◌<◌, ◌≡◌, refl, sym, ◌∙◌, ap, [], ◌∷◌, ◌++◌, All,
  lt→ltb, le→ltb, arith, All-append,
}
use native.Mathlib.Decide.{dec_lt}
use fixed_str.Utf8.{Bytes}
use fixed_str.Show.{decimal, decimal_loop}

-- The number that digits stand for, read behind `n`.
abbrev pub value : ℕ → Bytes → ℕ
value n [] = n
value n (d ∷ s) = value (n * 10 + (d - b'0')) s

value-append : (n : ℕ) (s : Bytes) (d : ℕ) → value n (s ++ d ∷ []) ≡ value n s * 10 + (d - b'0')
value-append n [] d = refl
value-append n (x ∷ s) d = value-append (n * 10 + (x - b'0')) s d

value-decimal_loop : (fuel n : ℕ) → n < fuel → value 0 (decimal_loop fuel n) ≡ n
unfolding decimal_loop
value-decimal_loop zero n h = absurd (omega arith)
value-decimal_loop (suc fuel) n h = elim (dec_lt n 10) [
  | yes small ↦ rw (lt→ltb n 10 small) (omega arith)
  | no big ↦
      rw
        (
          le→ltb n 10 (omega arith),
          value-append 0 (decimal_loop fuel (n / 10)) (b'0' + n % 10),
          value-decimal_loop fuel (n / 10) (omega arith),
        )
        (omega arith)
]

-- The digits stand for the number.
pub value-decimal : (n : ℕ) → value 0 (decimal n) ≡ n
unfolding decimal
value-decimal n = value-decimal_loop (suc n) n (omega arith)

abbrev IsDigit : ℕ → Type 0
IsDigit d = (48 ≤ d) × (d ≤ 57)

decimal_loop-IsDigit : (fuel n : ℕ) → All IsDigit (decimal_loop fuel n)
unfolding decimal_loop
decimal_loop-IsDigit zero n = tt
decimal_loop-IsDigit (suc fuel) n = elim (dec_lt n 10) [
  | yes small ↦ rw (lt→ltb n 10 small) ((omega arith, omega arith), tt)
  | no big ↦ rw (le→ltb n 10 (omega arith)) (
      All-append IsDigit (decimal_loop fuel (n / 10)) _ (decimal_loop-IsDigit fuel (n / 10))
        ((omega arith, omega arith), tt))
]

decimal-IsDigit : (n : ℕ) → All IsDigit (decimal n)
unfolding decimal
decimal-IsDigit n = decimal_loop-IsDigit (suc n) n

-- Digits end where something else begins.
digits_cut :
    (xs ys : Bytes) (d e : ℕ) (s t : Bytes)
    → All IsDigit xs
    → All IsDigit ys
    → d < 48
    → e < 48
    → xs ++ d ∷ s ≡ ys ++ e ∷ t
    → (xs ≡ ys) × (s ≡ t)
digits_cut [] [] d e s t h k hd he same = (refl, cc)
digits_cut [] (y ∷ ys) d e s t h (ky, k) hd he same = let eq : d ≡ y = cc in absurd (omega arith)
digits_cut (x ∷ xs) [] d e s t (hx, h) k hd he same = let eq : x ≡ e = cc in absurd (omega arith)
digits_cut (x ∷ xs) (y ∷ ys) d e s t (hx, h) (ky, k) hd he same =
    let eq : x ≡ y = cc in
    let rest : xs ++ d ∷ s ≡ ys ++ e ∷ t = cc in
    let (front, behind) = digits_cut xs ys d e s t h k hd he rest in (cc, behind)

pub decimal_injective : (m n : ℕ) → decimal m ≡ decimal n → m ≡ n
decimal_injective m n e = sym (value-decimal m) ∙ (ap (value 0) e ∙ value-decimal n)

-- A number ends where something else begins.
pub decimal_cut :
    (m n d : ℕ) (s t : Bytes) → d < 48 → decimal m ++ d ∷ s ≡ decimal n ++ d ∷ t → (m ≡ n) × (s ≡ t)
decimal_cut m n d s t hd same =
    let (e, rest) =
      digits_cut (decimal m) (decimal n) d d s t (decimal-IsDigit m) (decimal-IsDigit n) hd hd
        same in
    (decimal_injective m n e, rest)
