-- ===== src/Impl/Borrow.antt =====
-- `Hash` and `Borrow<str>` of src/fs_impl.rs: what a hasher is fed. A `Hasher` is the bytes that it has
-- been given: a slice feeds its length as a `usize` and then its bytes, a `str` its bytes and 0xff.
use fixed_str.Common.{
  ℕ, ◌≤◌, ◌≡◌, ◌≢◌, ap, [], ◌∷◌, ◌++◌, length, arith, length-append, length-take,
}
use fixed_str.Utf8.{Bytes}
use fixed_str.Slice.{Returns, Returns-ok, Returns→ok}
use fixed_str.EffectiveBytes.Content.{length-effective_bytes}
use fixed_str.Core.{FixedStr, content}
use fixed_str.Core.Access.{IsFixedStr, IsPrefixCut, as_str-IsPrefixCut}
use fixed_str.Impl.{hash, borrow}

abbrev pub feed_slice : (ℕ → Bytes) → Bytes → Bytes → Bytes
feed_slice usize_bytes s fed = fed ++ (usize_bytes (length s) ++ s)

abbrev pub feed_str : Bytes → Bytes → Bytes
feed_str s fed = fed ++ (s ++ 0xff ∷ [])

-- For every way to write a `usize` in 8 bytes, what `hash` of a well-formed value feeds a hasher
-- is never what the `str` that the value borrows as feeds it.
pub hash-borrow :
    {N : ℕ} (fs : FixedStr N) (usize_bytes : ℕ → Bytes) (fed : Bytes)
    → IsFixedStr fs
    → ((n : ℕ) → length (usize_bytes n) ≡ 8)
    → Returns (borrow fs) (λ s. hash (feed_slice usize_bytes) fs fed ≢ feed_str s fed)
unfolding borrow hash
hash-borrow fs usize_bytes fed wf eight =
    let (p, e, (n, cut, whole, good)) =
      Returns→ok _ (IsPrefixCut fs.bytes _) (as_str-IsPrefixCut fs wf) in
    let size : length p ≤ length (content fs) =
      rw whole
        (omega (arith, length-take n fs.bytes, cut.within, length-effective_bytes fs.bytes)) in
    let k = length (content fs) in
    Returns-ok _ _ p e (λ same. omega (
      arith,
      ap length same,
      length-append fed (usize_bytes k ++ content fs),
      length-append (usize_bytes k) (content fs),
      length-append fed (p ++ 0xff ∷ []),
      length-append p (0xff ∷ []),
      eight k,
      size,
    ))
