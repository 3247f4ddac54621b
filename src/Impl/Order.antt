-- ===== src/Impl/Order.antt =====
-- The order of both types, of src/fs_impl.rs and src/fs_buffer.rs, against their contents.
use Prim.Native.Nat.{Ordering, eq, lt, gt}
use native.Mathlib.Decide.{ℕ_discrete}
use fixed_str.Common.{List, ◌<◌, ℕ, ◌≡◌, ◌↔◌, refl, ap, some, [], ◌∷◌, arith}
use fixed_str.Utf8.{Bytes}
use fixed_str.Core.{FixedStr, content}
use fixed_str.Buffer.{FixedStrBuf}
use fixed_str.Impl.{
  bytes_cmp, cmp, buf_cmp, hash, buf_hash, partial_cmp, buf_partial_cmp, buf_content,
}

-- `cmp` says equal for equal contents and no others.
pub bytes_cmp_refl : (s : Bytes) → bytes_cmp s s ≡ eq
unfolding bytes_cmp
bytes_cmp_refl [] = refl
bytes_cmp_refl (a ∷ s) = ground (arith, bytes_cmp_refl s)

pub bytes_cmp_sound : (s t : Bytes) → bytes_cmp s t ≡ eq → s ≡ t
unfolding bytes_cmp
bytes_cmp_sound [] [] h = refl
bytes_cmp_sound [] (b ∷ t) h = cc
bytes_cmp_sound (a ∷ s) [] h = cc
bytes_cmp_sound (a ∷ s) (b ∷ t) h = ground (arith, bytes_cmp_sound s t)

-- The other way round.
abbrev pub swap : Ordering → Ordering
swap Ordering.lt = gt
swap Ordering.eq = eq
swap Ordering.gt = lt

pub bytes_cmp-swap : (s t : Bytes) → bytes_cmp t s ≡ swap (bytes_cmp s t)
unfolding bytes_cmp
bytes_cmp-swap [] [] = refl
bytes_cmp-swap [] (b ∷ t) = refl
bytes_cmp-swap (a ∷ s) [] = refl
bytes_cmp-swap (a ∷ s) (b ∷ t) = ground (arith, bytes_cmp-swap s t)

bytes_cmp_trans : (s t u : Bytes) → bytes_cmp s t ≡ lt → bytes_cmp t u ≡ lt → bytes_cmp s u ≡ lt
unfolding bytes_cmp
bytes_cmp_trans [] [] u h k = cc
bytes_cmp_trans [] (b ∷ t) [] h k = cc
bytes_cmp_trans [] (b ∷ t) (c ∷ u) h k = refl
bytes_cmp_trans (a ∷ s) [] u h k = cc
bytes_cmp_trans (a ∷ s) (b ∷ t) [] h k = cc
bytes_cmp_trans (a ∷ s) (b ∷ t) (c ∷ u) h k = ground (arith, bytes_cmp_trans s t u)

-- Dictionary order: a proper prefix comes first, and otherwise the lower of the first two numbers
-- that differ.
pub data IsBefore : List ℕ → List ℕ → Type 0 where
  ends : (d : ℕ) (ds : List ℕ) → IsBefore [] (d ∷ ds)
  lower : (c d : ℕ) (cs ds : List ℕ) → c < d → IsBefore (c ∷ cs) (d ∷ ds)
  behind : (c : ℕ) (cs ds : List ℕ) → IsBefore cs ds → IsBefore (c ∷ cs) (c ∷ ds)

pub IsBefore-bytes_cmp : (cs ds : List ℕ) → bytes_cmp cs ds ≡ lt → IsBefore cs ds
unfolding bytes_cmp
IsBefore-bytes_cmp [] [] h = absurd cc
IsBefore-bytes_cmp [] (d ∷ ds) h = ends d ds
IsBefore-bytes_cmp (c ∷ cs) [] h = absurd cc
IsBefore-bytes_cmp (c ∷ cs) (d ∷ ds) h = elim (ℕ_discrete c d) [
  | yes e ↦
      let h' : bytes_cmp cs ds ≡ lt = ground arith in
      rw e (behind d cs ds (IsBefore-bytes_cmp cs ds h'))
  | no ne ↦ lower c d cs ds (ground arith)
]

pub bytes_cmp-IsBefore : (cs ds : List ℕ) → IsBefore cs ds → bytes_cmp cs ds ≡ lt
unfolding bytes_cmp
bytes_cmp-IsBefore _ _ (ends d ds) = refl
bytes_cmp-IsBefore _ _ (lower c d cs ds less) = ground arith
bytes_cmp-IsBefore _ _ (behind c cs ds h) = ground (arith, bytes_cmp-IsBefore cs ds h)

-- The laws that `Ord` and `Hash` ask for, of a comparison that looks at `key`.
pub record IsLawful {A H : Type 0} (compare : A → A → Ordering) (hash : (Bytes → H → H) → A → H → H)
    (key : A → Bytes) : Type 0 where
  pub equal : (a b : A) → (compare a b ≡ eq) ↔ (key a ≡ key b)
  pub less : (a b : A) → (compare a b ≡ lt) ↔ IsBefore (key a) (key b)
  pub flip : (a b : A) → compare b a ≡ swap (compare a b)
  pub less_trans : (a b c : A) → compare a b ≡ lt → compare b c ≡ lt → compare a c ≡ lt
  pub same_hash :
      (hash_slice : Bytes → H → H) (a b : A) (state : H)
      → compare a b ≡ eq
      → hash hash_slice a state ≡ hash hash_slice b state

bytes_cmp-IsLawful :
    {A H : Type 0} (key : A → Bytes)
    → IsLawful {H = H}
        (λ a b. bytes_cmp (key a) (key b))
        (λ hash_slice a state. hash_slice (key a) state)
        key
bytes_cmp-IsLawful key = record {
  equal = λ a b. (bytes_cmp_sound (key a) (key b), λ e. rw e (bytes_cmp_refl (key b)));
  less = λ a b. (IsBefore-bytes_cmp (key a) (key b), bytes_cmp-IsBefore (key a) (key b));
  flip = λ a b. bytes_cmp-swap (key a) (key b);
  less_trans = λ a b c. bytes_cmp_trans (key a) (key b) (key c);
  same_hash =
      λ hash_slice a b state e. ap (λ k. hash_slice k state) (bytes_cmp_sound (key a) (key b) e);
}

-- `cmp` of values, and of builders, is the dictionary order of the effective bytes: equal exactly
-- where they are the same, less exactly where those of the first come before those of the second,
-- and the opposite when its arguments change places. Less-than is transitive, values that are
-- equal to `cmp` have the same hash, and `partial_cmp` is `cmp`.
pub cmp-IsLawful :
    (N : ℕ) (H : Type 0)
    → IsLawful {H = H} (cmp {N = N}) (hash {N = N}) content
      × IsLawful {H = H} (buf_cmp {N = N}) (buf_hash {N = N}) buf_content
      × ((a b : FixedStr N) → partial_cmp a b ≡ some (cmp a b))
      × ((a b : FixedStrBuf N) → buf_partial_cmp a b ≡ some (buf_cmp a b))
unfolding cmp buf_cmp hash buf_hash partial_cmp buf_partial_cmp
cmp-IsLawful N H =
    (bytes_cmp-IsLawful content, bytes_cmp-IsLawful buf_content, λ a b. refl, λ a b. refl)
