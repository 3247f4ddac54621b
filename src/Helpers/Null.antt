-- ===== src/Helpers/Null.antt =====
-- What `find_first_null` of src/string_helpers.rs finds.
use fixed_str.Common.{
  ℕ, zero, suc, ◌≤◌, ◌<◌, ◌≡◌, ◌≢◌, refl, Option, none, some, [], ◌∷◌, ◌++◌, ◌==◌, if◌then◌else◌,
  length, take, get_elem?, arith, All, Option-cases, inl, inr, ◌⊎◌, ◌∙◌, sym,
}
use native.Mathlib.Decide.{ℕ_discrete}
use fixed_str.Utf8.{Bytes}
use fixed_str.Helpers.{find_first_null, find_first_null_memchr}
use fixed_str.Slice.{zeros}

-- The bytes before the first null: the effective bytes.
abbrev pub NoNull : Bytes → Type 0
NoNull = All (λ b. b ≢ 0)

pub find_first_null-nil : find_first_null [] ≡ 0
unfolding find_first_null
find_first_null-nil = refl

pub find_first_null-cons :
    (b : ℕ) (s : Bytes) → find_first_null (b ∷ s) ≡ (if b == 0 then 0 else suc (find_first_null s))
unfolding find_first_null
find_first_null-cons b s = ground arith

pub Null-cases :
    (b : ℕ) (s : Bytes)
    → ((b ≡ 0) × (find_first_null (b ∷ s) ≡ 0))
      ⊎ ((b ≢ 0) × (find_first_null (b ∷ s) ≡ suc (find_first_null s)))
Null-cases b s = elim (ℕ_discrete b 0) [
  | yes e ↦ inl (e, ground (arith, find_first_null-cons b s))
  | no e ↦ inr (e, ground (arith, find_first_null-cons b s))
]

pub find_first_null-le : (s : Bytes) → find_first_null s ≤ length s
find_first_null-le [] = omega (arith, find_first_null-nil)
find_first_null-le (b ∷ s) = ground (arith, find_first_null-cons b s, find_first_null-le s)

pub take-NoNull : (s : Bytes) → NoNull (take (find_first_null s) s)
take-NoNull [] = rw find_first_null-nil tt
take-NoNull (b ∷ s) = elim (Null-cases b s) [
  | inl (z, e) ↦ rw e tt
  | inr (z, e) ↦ rw e (z, take-NoNull s)
]

-- There is no null before the index found, and there is one at it unless it is the length.
pub find_first_null_at :
    (s : Bytes) → find_first_null s < length s → get_elem? s (find_first_null s) ≡ some 0
find_first_null_at [] h = absurd (omega arith)
find_first_null_at (b ∷ s) h = elim (Null-cases b s) [
  | inl (z, e) ↦ rw (e, z) refl
  | inr (z, e) ↦ rw e (find_first_null_at s (omega arith))
]

-- The index is the only one with these properties.
pub find_first_null_unique :
    (s : Bytes) (n : ℕ) → NoNull (take n s) → get_elem? s n ≡ some 0 → find_first_null s ≡ n
find_first_null_unique [] n h e = cc
find_first_null_unique (b ∷ s) zero h e = ground (arith, find_first_null-cons b s)
find_first_null_unique (b ∷ s) (suc n) (h, hs) e =
    ground (arith, find_first_null-cons b s, find_first_null_unique s n hs e)

pub find_first_null-NoNull : (s : Bytes) → NoNull s → find_first_null s ≡ length s
find_first_null-NoNull [] h = find_first_null-nil
find_first_null-NoNull (b ∷ s) (h, hs) =
    ground (arith, find_first_null-cons b s, find_first_null-NoNull s hs)

-- Padding with nulls leaves the index alone.
pub find_first_null-zeros : (n : ℕ) → find_first_null (zeros n) ≡ 0
find_first_null-zeros zero = find_first_null-nil
find_first_null-zeros (suc n) = find_first_null-cons 0 (zeros n)

pub find_first_null-pad : (s : Bytes) (n : ℕ) → find_first_null (s ++ zeros n) ≡ find_first_null s
find_first_null-pad [] n = find_first_null-zeros n ∙ sym find_first_null-nil
find_first_null-pad (b ∷ s) n = ground (
  arith,
  find_first_null-cons b s,
  find_first_null-cons b (s ++ zeros n),
  find_first_null-pad s n,
)

-- What the crate `memchr` documents of its function: the index of the first byte that is `c`.
pub record IsMemchr (memchr : ℕ → Bytes → Option ℕ) : Type 0 where
  pub found :
      (c : ℕ) (s : Bytes) {i : ℕ}
      → memchr c s ≡ some i
      → (get_elem? s i ≡ some c) × All (λ b. b ≢ c) (take i s)
  pub missing : (c : ℕ) (s : Bytes) → memchr c s ≡ none → All (λ b. b ≢ c) s

-- Both builds of `find_first_null`, with and without the feature `memchr`, give the same index,
-- for every `memchr` that does what its documentation says.
pub find_first_null_memchr_lem :
    (memchr : ℕ → Bytes → Option ℕ)
    → IsMemchr memchr
    → (s : Bytes) → find_first_null_memchr memchr s ≡ find_first_null s
unfolding find_first_null_memchr
find_first_null_memchr_lem memchr spec s = elim (Option-cases (memchr 0 s)) [
  | inl e ↦ rw e (sym (find_first_null-NoNull s (spec.missing 0 s e)))
  | inr (i, e) ↦
      let (at, before) = spec.found 0 s e in rw e (sym (find_first_null_unique s i before at))
]
