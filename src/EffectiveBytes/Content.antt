-- ===== src/EffectiveBytes/Content.antt =====
-- Laws of `effective_bytes` of src/effective_bytes.rs.
use fixed_str.Common.{
  ℕ, ◌+◌, ◌-◌, ◌≤◌, ◌≡◌, ◌≢◌, refl, none, some, [], ◌∷◌, ◌++◌, ap, length, take, drop, arith,
  All-take, Option-cases, inl, inr, take_all, take-take, length-take, take-append_le,
  take-append-drop, drop-cons,
}
use native.Mathlib.Decide.{dec_lt}
use fixed_str.Error.{ok}
use fixed_str.Utf8.{Bytes, IsUtf8, State, start, tail1, step, run, ◌>>=◌}
use fixed_str.Utf8.Run.{run-append}
use fixed_str.Slice.{zeros, slice_to, slice_to_lem}
use fixed_str.Helpers.{find_first_null}
use fixed_str.Helpers.Null.{
  NoNull, Null-cases, find_first_null-le, take-NoNull, find_first_null-NoNull, find_first_null-pad,
  find_first_null_at,
}
use fixed_str.Helpers.Copy.{pad}
use fixed_str.EffectiveBytes.{effective_bytes}

-- The slice of `effective_bytes` does not panic.
pub slice_to-effective_bytes : (s : Bytes) → slice_to (find_first_null s) s ≡ ok (effective_bytes s)
unfolding effective_bytes
slice_to-effective_bytes s = slice_to_lem (find_first_null s) s (find_first_null-le s)

pub effective_bytes-NoNull : (s : Bytes) → NoNull (effective_bytes s)
unfolding effective_bytes
effective_bytes-NoNull s = take-NoNull s

pub length-effective_bytes : (s : Bytes) → length (effective_bytes s) ≡ find_first_null s
unfolding effective_bytes
length-effective_bytes s = omega (arith, length-take (find_first_null s) s, find_first_null-le s)

-- A list without a null is its own effective bytes.
pub effective_bytes_of_NoNull : (s : Bytes) → NoNull s → effective_bytes s ≡ s
unfolding effective_bytes
effective_bytes_of_NoNull s h =
    take_all (find_first_null s) s (omega (arith, find_first_null-NoNull s h))

pub effective_bytes_idem : (s : Bytes) → effective_bytes (effective_bytes s) ≡ effective_bytes s
effective_bytes_idem s = effective_bytes_of_NoNull (effective_bytes s) (effective_bytes-NoNull s)

pub effective_bytes-take :
    (n : ℕ) (s : Bytes) → n ≤ find_first_null s → effective_bytes (take n s) ≡ take n s
effective_bytes-take n s h = effective_bytes_of_NoNull (take n s) (
    rw (take-take n (find_first_null s) s h) at
      (All-take (λ b. b ≢ 0) n (take (find_first_null s) s) (take-NoNull s)))

pub take-effective_bytes :
    (n : ℕ) (s : Bytes) → n ≤ find_first_null s → take n (effective_bytes s) ≡ take n s
unfolding effective_bytes
take-effective_bytes n s h = take-take n (find_first_null s) s h

-- Padding with nulls does not show.
pub effective_bytes-append_zeros :
    (s : Bytes) (k : ℕ) → effective_bytes (s ++ zeros k) ≡ effective_bytes s
unfolding effective_bytes
effective_bytes-append_zeros s k =
    rw (
      find_first_null-pad s k,
      take-append_le s (zeros k) (find_first_null s) (find_first_null-le s),
    )

pub effective_bytes-pad : (n : ℕ) (s : Bytes) → effective_bytes (pad n s) ≡ effective_bytes s
effective_bytes-pad n s = effective_bytes-append_zeros s (n - length s)

-- A null is no part of a longer character.
step-null : (q q' : State) → step q 0 ≡ some q' → q ≡ start
unfolding step
step-null start q' e = refl
step-null tail1 q' e = cc
step-null _ q' e = cc

IsUtf8-null : (xs ys : Bytes) → IsUtf8 (xs ++ 0 ∷ ys) → IsUtf8 xs
IsUtf8-null xs ys h = elim (Option-cases (run start xs)) [
  | inl e ↦ absurd (stuck (rw (run-append start xs (0 ∷ ys), e) at h))
  | inr (q, e) ↦ elim (Option-cases (step q 0)) [
    | inl e' ↦ absurd (stuck (rw (run-append start xs (0 ∷ ys), e, ◌>>=◌, e') at h))
    | inr (q', e') ↦ rw (e, step-null q q' e') refl
  ]
]
  where
    stuck : none ≢ some start
    stuck = cc

-- The effective bytes of a valid UTF-8 string are valid UTF-8.
pub effective_bytes-IsUtf8 : (s : Bytes) → IsUtf8 s → IsUtf8 (effective_bytes s)
unfolding effective_bytes
effective_bytes-IsUtf8 s h = elim (dec_lt (find_first_null s) (length s)) [
  | no all ↦ rw (take_all (find_first_null s) s (omega arith)) h
  | yes more ↦
      let n = find_first_null s in
      let (b, e, at) = drop-cons n (n + 1) s refl more in
      let null : b ≡ 0 = cc (at, find_first_null_at s more) in
      IsUtf8-null (take n s) (drop (n + 1) s) (rw (← null, ← e, take-append-drop n s) h)
]

-- Bytes that are not null are seen, and so is what is seen behind them.
pub effective_bytes-append_NoNull :
    (c t : Bytes) → NoNull c → effective_bytes (c ++ t) ≡ c ++ effective_bytes t
unfolding effective_bytes
effective_bytes-append_NoNull [] t h = refl
effective_bytes-append_NoNull (b ∷ c) t (h, hs) = elim (Null-cases b (c ++ t)) [
  | inl (z, e) ↦ absurd (h z)
  | inr (z, e) ↦ rw e (ap (λ s. b ∷ s) (effective_bytes-append_NoNull c t hs))
]

pub effective_bytes-null : (t : Bytes) → effective_bytes (0 ∷ t) ≡ []
unfolding effective_bytes find_first_null
effective_bytes-null t = refl
