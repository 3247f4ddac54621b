-- ===== src/UnitTests.antt =====
-- The crate's own tests as runs of the model: the modules under `#[cfg(test)]` of each file, and
-- tests/fx_tests.rs. A test ends in `ok tt` if it passes and in `panic` otherwise.
pub mod StringHelpers
pub mod Builder
pub mod BuilderCut
pub mod Values
pub mod Rkyv
pub mod Serde
pub mod Integration
pub mod IntegrationMore
use Prim.Native.Nat.{Ordering}
use fixed_str.Common.{
  ℕ, Option, none, some, ◌≡◌, Bool, true, false, leb, if◌then◌else◌, length, drop, [], ◌∷◌, ◌==◌,
}
use fixed_str.Error.{Outcome, ok, err, panic, ◌>>=◌, ◌>>◌}
use fixed_str.Core.{FixedStr, as_str}
use fixed_str.Impl.{bytes_eq}
use fixed_str.Utf8.{Bytes}
use fixed_str.Serialize.{Io, done, failed}

abbrev pub Test : Type 0
Test = Outcome (Unit {0})

-- `#[test]` alone, and with `#[should_panic]`.
abbrev pub Passes : Test → Type 0
Passes test = test ≡ ok tt

abbrev pub Panics : Test → Type 0
Panics test = test ≡ panic

-- `assert!`, and `assert_eq!` with the comparison that it picks as the condition.
abbrev pub assert : Bool → Test
assert true = ok tt
assert false = panic

-- `assert!(r.is_ok())`, and `assert!(r.is_err())`
abbrev pub assert_ok {ℓ} : {A : Type ℓ} → Outcome A → Test
assert_ok (ok a) = ok tt
assert_ok (err e) = panic
assert_ok panic = panic

abbrev pub assert_err {ℓ} : {A : Type ℓ} → Outcome A → Test
assert_err (ok a) = panic
assert_err (err e) = ok tt
assert_err panic = panic

-- `unwrap` of a call on `&mut self`: the state that it leaves.
abbrev pub done_by {ℓ κ} : {S : Type ℓ} {A : Type κ} → S × Outcome A → Outcome S
done_by (s, ok a) = ok s
done_by (s, err e) = panic
done_by (s, panic) = panic

-- `&s[n..]`
abbrev pub slice_from : ℕ → Bytes → Outcome Bytes
slice_from n s = if leb n (length s) then ok (drop n s) else panic

-- `a < b` of `PartialOrd`
abbrev pub is_less : Option Ordering → Bool
is_less (some Ordering.lt) = true
is_less _ = false

-- `Result::expect`
abbrev pub expect : {E A : Type 0} → Io E A → Outcome A
expect (done a) = ok a
expect (failed e) = panic

-- `assert_eq!(fixed.as_str(), s)`
abbrev pub assert_str : {N : ℕ} → FixedStr N → Bytes → Test
assert_str fixed s = as_str fixed >>= λ t. assert (bytes_eq t s)

-- `for &b in s {assert_eq!(b, 0); }`
abbrev pub all_zero : Bytes → Test
all_zero [] = ok tt
all_zero (b ∷ s) = assert (b == 0) >> all_zero s
