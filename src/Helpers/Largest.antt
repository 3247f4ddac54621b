-- ===== src/Helpers/Largest.antt =====
-- The longest valid prefix, and where `find_valid_utf8_len` of src/string_helpers.rs finds it.
use fixed_str.Common.{ℕ, zero, suc, ◌+◌, ◌-◌, ◌≤◌, ◌≡◌, min, take, arith, inl, inr}
use native.Mathlib.Decide.{dec_lt}
use fixed_str.Error.{Outcome, ok}
use fixed_str.Utf8.{Bytes, IsUtf8}
use fixed_str.Slice.{Returns}
use fixed_str.Helpers.{find_first_null, find_valid_utf8_len}
use fixed_str.Helpers.Search.{IsSlice, IsCut, find_valid_utf8_len-IsCut}

-- `n` ends the longest valid prefix of at most `upper` bytes.
pub record IsLargest (bytes : Bytes) (upper n : ℕ) : Type 0 where
  pub within : n ≤ upper
  pub valid : IsUtf8 (take n bytes)
  pub largest : (m : ℕ) → m ≤ upper → IsUtf8 (take m bytes) → m ≤ n

-- Every prefix of a valid prefix is valid, as it is where all of its characters are ASCII.
abbrev pub IsDownClosed : Bytes → ℕ → Type 0
IsDownClosed bytes upper =
    (m : ℕ) → suc m ≤ upper → IsUtf8 (take (suc m) bytes) → IsUtf8 (take m bytes)

valid_below :
    (bytes : Bytes) (upper : ℕ)
    → IsDownClosed bytes upper
    → (k m : ℕ) → m + k ≤ upper
    → IsUtf8 (take (m + k) bytes)
    → IsUtf8 (take m bytes)
valid_below bytes upper down zero m h v = let e : m + 0 ≡ m = omega arith in rw e at v
valid_below bytes upper down (suc k) m h v =
    let e : m + suc k ≡ suc (m + k) = omega arith in
    valid_below bytes upper down k m (omega arith) (down (m + k) (omega arith) (rw e at v))

pub IsCut-IsLargest :
    (bytes : Bytes) (upper n : ℕ)
    → IsDownClosed bytes upper
    → IsCut bytes upper n
    → IsLargest bytes upper n
IsCut-IsLargest bytes upper n down cut = record {
  within = cut.within;
  valid = cut.valid;
  largest = λ m h v. elim (dec_lt n m) [
    | no few ↦ omega arith
    | yes more ↦ elim cut.stuck [
      | inl e ↦ absurd (omega arith)
      | inr bad ↦
          let e : suc n + (m - suc n) ≡ m = omega arith in
          absurd (bad (valid_below bytes upper down (m - suc n) (suc n) (omega arith) (rw e v)))
    ]
  ];
}

pub Returns-map {ℓ} :
    {A : Type ℓ} (r : Outcome A) (P Q : A → Type 0)
    → ((a : A) → P a → Q a)
    → Returns r P
    → Returns r Q
Returns-map (ok a) P Q f h = f a h
Returns-map (Outcome.err e) P Q f h = h
Returns-map Outcome.panic P Q f h = h

-- For a slice shorter than 2^63 where every prefix of a valid prefix up to `max_len` and the first
-- null is valid, as it is for ASCII, `find_valid_utf8_len` returns the largest index that ends a
-- valid prefix within these bounds.
pub find_valid_utf8_len-IsLargest :
    (bytes : Bytes) (max_len : ℕ)
    → IsSlice bytes
    → IsDownClosed bytes (min max_len (find_first_null bytes))
    → Returns
        (find_valid_utf8_len bytes max_len)
        (IsLargest bytes (min max_len (find_first_null bytes)))
find_valid_utf8_len-IsLargest bytes max_len small down =
    Returns-map _ (IsCut bytes _) (IsLargest bytes _) (λ n cut. IsCut-IsLargest bytes _ n down cut)
      (find_valid_utf8_len-IsCut bytes max_len small)
