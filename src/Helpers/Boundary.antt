-- ===== src/Helpers/Boundary.antt =====
-- `find_valid_boundary` on a valid string: the largest character boundary within the limit.
use fixed_str.Common.{
  ℕ, zero, suc, ◌+◌, ◌-◌, ◌≤◌, ◌<◌, ◌≡◌, refl, min, ltb, none, some, ◌∷◌, if◌then◌else◌, length,
  take, drop, arith, All, lt→ltb, le→ltb, drop-cons, get_elem?-drop, get_elem?, ap, ◌∙◌,
  length-drop, take-add, drop-drop,
}
use native.Mathlib.Decide.{dec_lt}
use fixed_str.Error.{ok, ◌>>=◌}
use fixed_str.Utf8.{Bytes, IsUtf8}
use fixed_str.Utf8.Run.{IsContinuation, IsUtf8-append, IsUtf8-append_right}
use fixed_str.Slice.{index_lem, Returns}
use fixed_str.Helpers.{skip_continuation, next_boundary, boundary_loop, find_valid_boundary}
use fixed_str.Helpers.Chars.{FirstChar, first_char, IsContinuation-mask}
use fixed_str.Helpers.Largest.{IsLargest}

skip_continuation_lem :
    (n : ℕ) (bytes : Bytes) (j : ℕ)
    → n ≤ length bytes - j
    → All IsContinuation (take n (drop j bytes))
    → skip_continuation n bytes j ≡ ok (j + n)
unfolding skip_continuation
skip_continuation_lem zero bytes j fits due = let e : j + 0 ≡ j = omega arith in rw e
skip_continuation_lem (suc n) bytes j fits due =
    let (b, e, at) = drop-cons j (j + 1) bytes refl (omega arith) in
    let (first, others) = split b (drop (j + 1) bytes) (rw e at due) in
    let sum : j + 1 + n ≡ j + suc n = omega arith in
    rw (index_lem bytes j b at, ◌>>=◌, IsContinuation-mask b first)
      (skip_continuation_lem n bytes (j + 1) (omega arith) others ∙ ap ok sum)
  where
    split :
        (b : ℕ) (s : Bytes)
        → All IsContinuation (take (suc n) (b ∷ s))
        → IsContinuation b × All IsContinuation (take n s)
    split b s h = h

-- One round, at the start of a character of `suc n` bytes.
next_boundary_lem :
    (bytes : Bytes) (max_len i b n : ℕ) (s : Bytes)
    → drop i bytes ≡ b ∷ s
    → FirstChar b s n
    → next_boundary bytes max_len i
      ≡ ok (if ltb max_len (i + suc n) then none else some (i + suc n))
unfolding next_boundary
next_boundary_lem bytes max_len i b n s e c =
    let at : get_elem? bytes i ≡ some b = rw (get_elem?-drop i bytes, e) in
    let len : length bytes - i ≡ suc (length s) = rw (← length-drop i bytes, e) in
    let next : drop (i + 1) bytes ≡ s = rw (← drop-drop i 1 (i + 1) bytes refl, e) in
    let one : suc n - 1 ≡ n = omega arith in
    rw (index_lem bytes i b at, ◌>>=◌, c.width)
      (ground (
        arith,
        one,
        skip_continuation_lem n bytes (i + 1) (omega (arith, c.rest.fits)) (rw next c.rest.due),
      ))

record Inv (bytes : Bytes) (max_len i : ℕ) : Type 0 where
  inside : i ≤ length bytes
  below : i ≤ max_len
  before : IsUtf8 (take i bytes)
  after : IsUtf8 (drop i bytes)

-- The limit cuts the character at `i`, or there is none at `i`.
Inv-IsLargest :
    (bytes : Bytes) (max_len i : ℕ)
    → Inv bytes max_len i
    → ((k : ℕ) → 0 < k → i + k ≤ min max_len (length bytes) → ¬ IsUtf8 (take k (drop i bytes)))
    → IsLargest bytes (min max_len (length bytes)) i
Inv-IsLargest bytes max_len i inv none_longer = record {
  within = omega (arith, inv.inside, inv.below);
  valid = inv.before;
  largest = λ m h v. elim (dec_lt i m) [
    | no few ↦ omega arith
    | yes more ↦
        let cut = take-add i (m - i) m bytes (omega arith) in
        absurd (
          none_longer (m - i) (omega arith) (omega arith) (
            IsUtf8-append_right (take i bytes) (take (m - i) (drop i bytes)) inv.before
              (rw cut at v)))
  ];
}

-- The next round starts behind the character at `i`.
Inv-next :
    (bytes : Bytes) (max_len i b n : ℕ) (s : Bytes)
    → Inv bytes max_len i
    → drop i bytes ≡ b ∷ s
    → FirstChar b s n
    → i + suc n ≤ max_len
    → Inv bytes max_len (i + suc n)
Inv-next bytes max_len i b n s inv e c fits =
    let len : length bytes - i ≡ suc (length s) = rw (← length-drop i bytes, e) in
    record {
      inside = omega (arith, c.rest.fits);
      below = fits;
      before =
          rw (take-add i (suc n) (i + suc n) bytes refl)
            (IsUtf8-append (take i bytes) (take (suc n) (drop i bytes)) inv.before (rw e c.char));
      after = rw (← drop-drop i (suc n) (i + suc n) bytes refl, e) c.rest.closed;
    }

boundary_loop-IsLargest :
    (fuel : ℕ) (bytes : Bytes) (max_len i : ℕ)
    → length bytes < i + fuel
    → Inv bytes max_len i
    → Returns (boundary_loop fuel bytes max_len i i) (IsLargest bytes (min max_len (length bytes)))
unfolding boundary_loop
boundary_loop-IsLargest zero bytes max_len i h inv = absurd (omega (arith, inv.inside))
boundary_loop-IsLargest (suc fuel) bytes max_len i h inv = elim (dec_lt i (length bytes)) [
  | no end ↦
      rw (le→ltb i (length bytes) (omega arith))
        (Inv-IsLargest bytes max_len i inv (λ k pos room v. absurd (omega arith)))
  | yes more ↦
      let (b, e, at) = drop-cons i (i + 1) bytes refl more in
      let (n, c) = first_char b (drop (i + 1) bytes) (rw e at inv.after) in
      rw (lt→ltb i (length bytes) more, next_boundary_lem bytes max_len i b n _ e c)
        (elim (dec_lt max_len (i + suc n)) [
          | yes over ↦ rw (lt→ltb max_len (i + suc n) over) (
              Inv-IsLargest bytes max_len i inv
                (λ k pos room v. c.whole k pos (omega arith) (rw e at v)))
          | no fits ↦ rw (le→ltb max_len (i + suc n) (omega arith)) (
              boundary_loop-IsLargest fuel bytes max_len (i + suc n) (omega arith)
                (Inv-next bytes max_len i b n _ inv e c (omega arith)))
        ])
]

-- On a valid UTF-8 string `find_valid_boundary` ends without a panic, and its index is the largest
-- within `max_len` and the length that ends a valid prefix.
pub find_valid_boundary-IsLargest :
    (bytes : Bytes) (max_len : ℕ)
    → IsUtf8 bytes
    → Returns (find_valid_boundary bytes max_len) (IsLargest bytes (min max_len (length bytes)))
unfolding find_valid_boundary
find_valid_boundary-IsLargest bytes max_len valid =
    boundary_loop-IsLargest (suc (length bytes)) bytes max_len 0 (omega arith)
      (record { inside = omega arith; below = omega arith; before = refl; after = valid })
