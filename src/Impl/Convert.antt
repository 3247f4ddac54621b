-- ===== src/Impl/Convert.antt =====
-- `TryFrom<&[u8]>` and `IntoIterator` of `FixedStr`, of src/fs_impl.rs.
use fixed_str.Common.{
  ℕ, zero, suc, ◌+◌, ◌≤◌, ◌<◌, ◌≡◌, refl, ltb, none, some, length, take, drop, get_elem?, Option,
  arith, ◌∙◌, [], ◌∷◌, if◌then◌else◌, lt→ltb, le→ltb, drop-cons,
}
use native.Mathlib.Decide.{dec_lt}
use fixed_str.Error.{Outcome, ok, err, overflow, invalid_utf8, panic, ◌>>=◌}
use fixed_str.Utf8.{Bytes, is_utf8, from_utf8}
use fixed_str.Slice.{index_lem}
use fixed_str.Helpers.{find_first_null}
use fixed_str.Helpers.Null.{find_first_null-le}
use fixed_str.Helpers.Copy.{pad, copy_into_buffer_exact, copy_into_buffer_overflow}
use fixed_str.EffectiveBytes.{effective_bytes, EffectiveBytesIter, next}
use fixed_str.EffectiveBytes.Content.{
  effective_bytes-pad, effective_bytes_idem, length-effective_bytes,
}
use fixed_str.Core.{FixedStr, content, len, is_valid}
use fixed_str.Impl.{try_from, into_iter}

-- At a capacity above 0, `try_from` of a value looks at the bytes before the first null. It
-- refuses what is too long, with the length of that part, then what is not UTF-8, and keeps all of
-- the rest, padded with nulls.
pub try_from_lem :
    (N : ℕ) (s : Bytes)
    → 0 < N
    → try_from N s ≡ (
        if ltb N (find_first_null s)
        then err (overflow N (find_first_null s))
        else if is_utf8 (effective_bytes s)
        then ok (record { bytes = pad N (effective_bytes s) })
        else err invalid_utf8)
unfolding try_from is_valid from_utf8
try_from_lem N s pos = elim (dec_lt N (find_first_null s)) [
  | yes big ↦
      let size = length-effective_bytes s in
      rw
        (
          lt→ltb N (find_first_null s) big,
          copy_into_buffer_overflow N (effective_bytes s) pos (omega (arith, size)),
          size,
        )
        refl
  | no fits ↦
      let seen = effective_bytes-pad N (effective_bytes s) ∙ effective_bytes_idem s in
      rw
        (
          le→ltb N (find_first_null s) (omega arith),
          copy_into_buffer_exact N (effective_bytes s) pos
              (omega (arith, length-effective_bytes s)),
        )
        (rw (◌>>=◌, seen) (ground arith))
]

-- What a `for` loop takes from the iterator, up to the first `None`; the fuel counts the calls.
unfoldable pub collect : ℕ → EffectiveBytesIter → Outcome Bytes
collect zero it = panic
collect (suc fuel) it = next it >>= λ (it', item). elim item [
  | none ↦ ok []
  | some b ↦ (collect fuel it' >>= λ bs. ok (b ∷ bs))
]

collect_from :
    (fuel : ℕ) (bytes : Bytes) (i n k : ℕ)
    → n ≤ length bytes
    → n ≡ i + k
    → k < fuel
    → collect fuel (record { bytes = bytes; index = i; len = n }) ≡ ok (take k (drop i bytes))
unfolding collect next
collect_from zero bytes i n k fits e h = absurd (omega arith)
collect_from (suc fuel) bytes i n zero fits e h = rw (le→ltb i n (omega arith)) refl
collect_from (suc fuel) bytes i n (suc k) fits e h =
    let (b, split, at) = drop-cons i (i + 1) bytes refl (omega arith) in
    rw (lt→ltb i n (omega arith), index_lem bytes i b at)
      (rw (◌>>=◌, split, collect_from fuel bytes (i + 1) n k fits (omega arith) (omega arith)) refl)

-- What the iterator gives after `n` calls.
unfoldable pub item_after : ℕ → EffectiveBytesIter → Outcome (Option ℕ)
item_after zero it = next it >>= λ (it', item). ok item
item_after (suc n) it = next it >>= λ (it', item). item_after n it'

item_after_from :
    (calls : ℕ) (bytes : Bytes) (i n k : ℕ)
    → n ≤ length bytes
    → n ≡ i + k
    → item_after calls (record { bytes = bytes; index = i; len = n })
      ≡ ok (get_elem? (take k (drop i bytes)) calls)
unfolding item_after next
item_after_from zero bytes i n zero fits e = rw (le→ltb i n (omega arith)) refl
item_after_from (suc calls) bytes i n zero fits e =
    rw (le→ltb i n (omega arith)) (item_after_from calls bytes i n zero fits e)
item_after_from zero bytes i n (suc k) fits e =
    let (b, split, at) = drop-cons i (i + 1) bytes refl (omega arith) in
    rw (lt→ltb i n (omega arith), index_lem bytes i b at) (rw (◌>>=◌, split) refl)
item_after_from (suc calls) bytes i n (suc k) fits e =
    let (b, split, at) = drop-cons i (i + 1) bytes refl (omega arith) in
    rw (lt→ltb i n (omega arith), index_lem bytes i b at)
      (rw (◌>>=◌, split) (item_after_from calls bytes (i + 1) n k fits (omega arith)))

-- The iterator over a value yields the bytes of its content, one for each call, and then `None`,
-- without a panic. After any number of calls the next one gives the byte of the content at that
-- position, and `None` at every position behind it.
pub collect-into_iter :
    {N : ℕ} (fs : FixedStr N) (n : ℕ)
    → (collect (suc (len fs)) (into_iter fs) ≡ ok (content fs))
      × (item_after n (into_iter fs) ≡ ok (get_elem? (content fs) n))
unfolding into_iter len effective_bytes
collect-into_iter fs n =
    let end = find_first_null fs.bytes in
    let inside = find_first_null-le fs.bytes in
    (
      collect_from (suc end) fs.bytes 0 end end inside (omega arith) (omega arith),
      item_after_from n fs.bytes 0 end end inside (omega arith),
    )
