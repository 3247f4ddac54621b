-- ===== src/Slice.antt =====
-- The operations of Rust's slices and arrays that the crate uses, each with its bounds check.
use fixed_str.Common.{
  ℕ, zero, suc, ◌+◌, ◌-◌, ◌≤◌, ◌<◌, ◌≡◌, refl, ◌&&◌, none, some, ◌++◌, ltb, leb, ◌==◌,
  if◌then◌else◌, length, take, drop, replicate, set, get_elem?, arith, length-replicate, append-nil,
  drop_all,
}
use fixed_str.Error.{Outcome, ok, panic}
use fixed_str.Utf8.{Bytes}

-- `&s[..n]`
unfoldable pub slice_to : ℕ → Bytes → Outcome Bytes
slice_to n s = if leb n (length s) then ok (take n s) else panic

-- `s[i]`
unfoldable pub index : Bytes → ℕ → Outcome ℕ
index s i = elim (get_elem? s i) [ some b ↦ ok b | none ↦ panic ]

-- `s[i] = v`
unfoldable pub write : Bytes → ℕ → ℕ → Outcome Bytes
write s i v = if ltb i (length s) then ok (set s i v) else panic

-- `dst[from..to].copy_from_slice(src)`
unfoldable pub copy_from_slice : Bytes → ℕ → ℕ → Bytes → Outcome Bytes
copy_from_slice dst from to src =
    if leb from to && leb to (length dst) && (to - from == length src)
    then ok (take from dst ++ (src ++ drop to dst))
    else panic

-- `s[from..to].fill(0)`
unfoldable pub fill_zero : Bytes → ℕ → ℕ → Outcome Bytes
fill_zero s from to =
    if leb from to && leb to (length s)
    then ok (take from s ++ (replicate (to - from) 0 ++ drop to s))
    else panic

-- `[0u8; N]`
abbrev pub zeros : ℕ → Bytes
zeros n = replicate n 0

-- The call returns a value, with no panic and no error value, and `P` holds of it.
abbrev pub Returns {ℓ} : {A : Type ℓ} → Outcome A → (A → Type 0) → Type 0
Returns (ok a) P = P a
Returns (Outcome.err e) P = ⊥
Returns panic P = ⊥

pub Returns-ok {ℓ} :
    {A : Type ℓ} (r : Outcome A) (P : A → Type 0) (a : A) → r ≡ ok a → P a → Returns r P
Returns-ok r P a e h = rw e h

pub Returns→ok {ℓ} :
    {A : Type ℓ} (r : Outcome A) (P : A → Type 0) → Returns r P → (a : A) × (r ≡ ok a) × P a
Returns→ok (ok a) P h = (a, refl, h)
Returns→ok (Outcome.err e) P h = absurd h
Returns→ok panic P h = absurd h

pub slice_to_lem : (n : ℕ) (s : Bytes) → n ≤ length s → slice_to n s ≡ ok (take n s)
unfolding slice_to
slice_to_lem n s h = ground arith

pub index_lem : (s : Bytes) (i b : ℕ) → get_elem? s i ≡ some b → index s i ≡ ok b
unfolding index
index_lem s i b e = rw (e, index)

pub write_lem : (s : Bytes) (i v : ℕ) → i < length s → write s i v ≡ ok (set s i v)
unfolding write
write_lem s i v h = ground arith

pub copy_from_slice_lem :
    (dst src : Bytes) (from to : ℕ)
    → to ≡ from + length src
    → to ≤ length dst
    → copy_from_slice dst from to src ≡ ok (take from dst ++ (src ++ drop to dst))
unfolding copy_from_slice
copy_from_slice_lem dst src from to e h = ground arith

pub fill_zero_lem :
    (s : Bytes) (from to : ℕ)
    → from ≤ to
    → to ≡ length s
    → fill_zero s from to ≡ ok (take from s ++ zeros (to - from))
unfolding fill_zero
fill_zero_lem s from to h e = ground (arith, drop_all to s, append-nil (zeros (to - from)))

pub length-zeros : (n : ℕ) → length (zeros n) ≡ n
length-zeros n = length-replicate n (zero)

pub drop-zeros : (n k m : ℕ) → m ≡ n - k → drop k (zeros n) ≡ zeros m
drop-zeros n zero m e = let e' : m ≡ n = omega arith in rw e'
drop-zeros zero (suc k) m e = let e' : m ≡ 0 = omega arith in rw e'
drop-zeros (suc n) (suc k) m e = drop-zeros n k m (omega arith)
