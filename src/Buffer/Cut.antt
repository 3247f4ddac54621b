-- ===== src/Buffer/Cut.antt =====
-- `truncate` and `clear` of the builder of src/fs_buffer.rs, and the bytes behind the text.
use fixed_str.Common.{
  ℕ, zero, suc, ◌+◌, ◌-◌, ◌≤◌, ◌<◌, ◌≡◌, refl, length, take, drop, set, arith, ◌++◌, ◌∙◌, sym, [],
  ◌∷◌, ap, append_assoc, lt→ltb, le→ltb, length-take, length-drop, length-append, length-set,
  set_split, take-append, drop-append_add, take-append_add, take-append-drop, take-take, take_all,
  drop-drop, replicate-add,
}
use native.Mathlib.Decide.{dec_lt}
use fixed_str.Error.{ok}
use fixed_str.Utf8.{Bytes}
use fixed_str.Slice.{zeros, length-zeros, drop-zeros, write_lem}
use fixed_str.EffectiveBytes.{effective_bytes}
use fixed_str.EffectiveBytes.Content.{effective_bytes-append_zeros}
use fixed_str.Buffer.{FixedStrBuf, zero_loop, truncate}
use fixed_str.Buffer.View.{IsBuf, text, length-text, appended, text-appended}

-- What the loop leaves: the bytes from `i` on are null, `count` of them.
zeroed : ℕ → ℕ → Bytes → Bytes
zeroed count i xs = take i xs ++ (zeros count ++ drop (i + count) xs)

-- One round and the rest zero one byte more.
zeroed_step :
    (count i : ℕ) (xs : Bytes)
    → i < length xs
    → zeroed count (i + 1) (take i xs ++ (0 ∷ drop (i + 1) xs)) ≡ zeroed (suc count) i xs
unfolding zeroed
zeroed_step count i xs h =
    let size : length (take i xs) ≡ i = omega (arith, length-take i xs) in
    rw
      (
        take-append_add (take i xs) (0 ∷ drop (i + 1) xs) (i + 1) 1 (omega (arith, size)),
        drop-append_add (take i xs) (0 ∷ drop (i + 1) xs) (i + 1 + count) (suc count)
            (omega (arith, size)),
        drop-drop (i + 1) count (i + suc count) xs (omega arith),
      )
      (append_assoc (take i xs) (0 ∷ []) _)

zero_loop_lem :
    (count i : ℕ) (xs : Bytes)
    → i + count ≤ length xs
    → zero_loop count i xs ≡ ok (zeroed count i xs)
unfolding zero_loop
zero_loop_lem zero i xs fits =
    let e : i + 0 ≡ i = omega arith in unfold zeroed in (rw (e, take-append-drop i xs) refl)
zero_loop_lem (suc count) i xs fits =
    let full : length (set xs i 0) ≡ length xs = length-set xs i 0 in
    rw (write_lem xs i 0 (omega arith)) (
      zero_loop_lem count (i + 1) (set xs i 0) (omega (arith, full))
      ∙ ap ok (
          ap (zeroed count (i + 1)) (set_split i (i + 1) xs 0 refl (omega arith))
          ∙ zeroed_step count i xs (omega arith)))

-- The bytes behind the text are null.
pub record IsClean {N : ℕ} (b : FixedStrBuf N) : Type 0 where
  pub tail : b.buffer ≡ text b ++ zeros (N - b.len)

module _ {N : ℕ} (b : FixedStrBuf N) (wf : IsBuf b) where
  -- The state after a cut inside the text.
  abbrev cut_at : ℕ → FixedStrBuf N
  cut_at k = record { buffer = zeroed (b.len - k) k b.buffer; len = k }

  truncate_cut : (k : ℕ) → k < b.len → truncate b k ≡ (cut_at k, ok tt)
  unfolding truncate
  truncate_cut k h =
      rw (lt→ltb k b.len h, zero_loop_lem (b.len - k) k b.buffer (omega (arith, wf.size, wf.room)))
        refl

  truncate_keep : (k : ℕ) → b.len ≤ k → truncate b k ≡ (b, ok tt)
  unfolding truncate
  truncate_keep k h = rw (le→ltb k b.len h) refl

  take-cut_at : (k : ℕ) → k < b.len → text (cut_at k) ≡ take k b.buffer
  unfolding zeroed
  take-cut_at k h =
      take-append (take k b.buffer) _ k (omega (arith, length-take k b.buffer, wf.size, wf.room))

  text-cut_at : (k : ℕ) → k < b.len → text (cut_at k) ≡ take k (text b)
  text-cut_at k h = take-cut_at k h ∙ sym (take-take k b.len b.buffer (omega arith))

  cut_at-IsBuf : (k : ℕ) → k < b.len → IsBuf (cut_at k)
  unfolding zeroed
  cut_at-IsBuf k h = record {
    size = omega (
      arith,
      length-append (take k b.buffer) (zeros (b.len - k) ++ drop (k + (b.len - k)) b.buffer),
      length-append (zeros (b.len - k)) (drop (k + (b.len - k)) b.buffer),
      length-zeros (b.len - k),
      length-take k b.buffer,
      length-drop (k + (b.len - k)) b.buffer,
      wf.size,
      wf.room,
    );
    room = omega (arith, wf.room);
    small = wf.small;
  }

  -- On a well-formed builder `truncate` returns, keeps the builder well-formed, and cuts the text
  -- at `new_len` bytes.
  pub truncate-text :
      (new_len : ℕ)
      → (text (truncate b new_len).0 ≡ take new_len (text b))
        × ((truncate b new_len).1 ≡ ok tt)
        × IsBuf (truncate b new_len).0
  truncate-text k = elim (dec_lt k b.len) [
    | yes cut ↦ rw (truncate_cut k cut) (text-cut_at k cut, refl, cut_at-IsBuf k cut)
    | no keep ↦
        rw (truncate_keep k (omega arith))
          (sym (take_all k (text b) (omega (arith, length-text b wf))), refl, wf)
  ]

  module _ (clean : IsClean b) where
    drop-clean : (k m : ℕ) → b.len ≤ k → m ≡ N - k → drop k b.buffer ≡ zeros m
    drop-clean k m h e = rw clean.tail (
        drop-append_add (text b) (zeros (N - b.len)) k (k - b.len) (omega (arith, length-text b wf))
        ∙ drop-zeros (N - b.len) (k - b.len) m (omega (arith, wf.room)))

    -- What is seen of the buffer is what is seen of the text.
    pub effective_bytes-text : effective_bytes b.buffer ≡ effective_bytes (text b)
    effective_bytes-text =
        ap effective_bytes clean.tail ∙ effective_bytes-append_zeros (text b) (N - b.len)

    cut_at-IsClean : (k : ℕ) → k < b.len → IsClean (cut_at k)
    unfolding zeroed
    cut_at-IsClean k h =
        let behind = drop-clean (k + (b.len - k)) (N - b.len) (omega arith) (omega arith) in
        let joined = replicate-add (b.len - k) (N - b.len) (N - k) zero (omega (arith, wf.room)) in
        record {
          tail =
              ap (λ t. take k b.buffer ++ (zeros (b.len - k) ++ t)) behind
              ∙ ap (λ t. take k b.buffer ++ t) joined
              ∙ ap (λ t. t ++ zeros (N - k)) (sym (take-cut_at k h));
        }

    -- Where a well-formed builder has only nulls behind its text, it has only nulls behind its
    -- text after `truncate`.
    pub truncate-IsClean : (new_len : ℕ) → IsClean (truncate b new_len).0
    truncate-IsClean k = elim (dec_lt k b.len) [
      | yes cut ↦ rw (truncate_cut k cut) (cut_at-IsClean k cut)
      | no keep ↦ rw (truncate_keep k (omega arith)) clean
    ]

    pub appended-IsClean : (s : Bytes) → length s ≤ N - b.len → IsClean (appended b wf s)
    appended-IsClean s fits =
        let k = b.len + length s in
        let behind = drop-clean k (N - k) (omega arith) refl in
        record {
          tail =
              ap (λ t. text b ++ (s ++ t)) behind
              ∙ sym (append_assoc (text b) s (zeros (N - k)))
              ∙ ap (λ t. t ++ zeros (N - k)) (sym (text-appended b wf s));
        }
