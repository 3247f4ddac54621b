-- ===== src/Common/Bits.antt =====
-- A test passed by every byte, found by running it on each of them.
use native.Mathlib.Decide.{ℕ_discrete}
use native.Mathlib.Omega.{arith}
use Prim.Native.Nat.{ℕ, zero, suc, ◌<◌}
use mathlib.Core.Bool.{Bool, true, false}
use mathlib.Core.Path.{◌≡◌}
use mathlib.Core.Logic.{inl, inr}
use fixed_str.Common.Tests.{if◌then◌else◌, Bool-cases}

-- The numbers under the bound pass the test.
unfoldable pub passes : (test : ℕ → Bool) (bound : ℕ) → Bool
passes test zero = true
passes test (suc last) = let rest = passes test last in if test last then rest else false

pub passes-lt :
    (test : ℕ → Bool) (bound : ℕ) {value : ℕ}
    → value < bound
    → passes test bound ≡ true
    → test value ≡ true
unfolding passes
passes-lt test zero small passed = absurd (omega arith)
passes-lt test (suc last) {value} small passed = elim (ℕ_discrete value last) [
  | yes same ↦ elim (Bool-cases (test last)) [
    | inl good ↦ rw same good
    | inr bad ↦ let wrong : false ≡ true = rw bad at passed in absurd cc
  ]
  | no other ↦ elim (Bool-cases (test last)) [
    | inl good ↦ passes-lt test last (omega arith) (rw good at passed)
    | inr bad ↦ let wrong : false ≡ true = rw bad at passed in absurd cc
  ]
]
