-- ===== src/Impl/Chars.antt =====
-- The order of both types, of src/fs_impl.rs and src/fs_buffer.rs, on the characters of their contents.
use Prim.Native.Nat.{eq, lt}
use fixed_str.Common.{ℕ, ◌<◌, ◌≡◌, ◌↔◌, refl, ◌∙◌, ap, true, List, [], ◌∷◌, ◌++◌, arith}
use native.Mathlib.Decide.{dec_lt}
use fixed_str.Utf8.{Bytes, is_scalar, encode_utf8}
use fixed_str.Utf8.Chars.{encode_all, AllScalar, IsUtf8-chars}
use fixed_str.Core.{FixedStr, content, is_valid}
use fixed_str.Core.Access.{is_valid_iff}
use fixed_str.Impl.{bytes_cmp, cmp}
use fixed_str.Impl.Order.{
  IsBefore, IsBefore-bytes_cmp, bytes_cmp-IsBefore, swap, bytes_cmp_sound, bytes_cmp_refl,
  bytes_cmp-swap,
}

encode_utf8-lt :
    (c d : ℕ) (s t : Bytes)
    → is_scalar d ≡ true
    → c < d
    → bytes_cmp (encode_utf8 c ++ s) (encode_utf8 d ++ t) ≡ lt
unfolding encode_utf8 bytes_cmp
encode_utf8-lt c d s t h less = ground arith

bytes_cmp-append : (p s t : Bytes) → bytes_cmp (p ++ s) (p ++ t) ≡ bytes_cmp s t
unfolding bytes_cmp
bytes_cmp-append [] s t = refl
bytes_cmp-append (b ∷ p) s t = ground (arith, bytes_cmp-append p s t)

encode_utf8_behind_nil : (d : ℕ) (t : Bytes) → bytes_cmp [] (encode_utf8 d ++ t) ≡ lt
unfolding encode_utf8 bytes_cmp
encode_utf8_behind_nil d t = ground arith

-- The first characters that differ decide, and a string comes behind its prefixes.
pub bytes_cmp-encode_all :
    (cs ds : List ℕ)
    → AllScalar cs
    → AllScalar ds
    → bytes_cmp (encode_all cs) (encode_all ds) ≡ bytes_cmp cs ds
unfolding bytes_cmp
bytes_cmp-encode_all [] [] h k = refl
bytes_cmp-encode_all [] (d ∷ ds) h k = encode_utf8_behind_nil d (encode_all ds)
bytes_cmp-encode_all (c ∷ cs) [] h k =
    bytes_cmp-swap [] (encode_all (c ∷ cs)) ∙ ap swap (encode_utf8_behind_nil c (encode_all cs))
bytes_cmp-encode_all (c ∷ cs) (d ∷ ds) (hc, h) (hd, k) = elim (dec_lt c d) [
  | yes less ↦ encode_utf8-lt c d (encode_all cs) (encode_all ds) hd less ∙ ground arith
  | no small ↦ elim (dec_lt d c) [
    | yes more ↦
        bytes_cmp-swap (encode_all (d ∷ ds)) (encode_all (c ∷ cs))
        ∙ ap swap (encode_utf8-lt d c (encode_all ds) (encode_all cs) hc more)
        ∙ ground arith
    | no large ↦
        let same : c ≡ d = omega arith in
        rw (same, bytes_cmp-append (encode_utf8 d) (encode_all cs) (encode_all ds))
          (bytes_cmp-encode_all cs ds h k ∙ ground arith)
  ]
]

-- The contents of two valid values are strings of characters, and `cmp` is the dictionary order of
-- their scalar values: less where the first list of characters comes before the second, and equal
-- where they are the same.
pub cmp-IsBefore :
    {N : ℕ} (a b : FixedStr N)
    → is_valid a ≡ true
    → is_valid b ≡ true
    → (cs ds : List ℕ) × AllScalar cs
      × AllScalar ds
      × (content a ≡ encode_all cs)
      × (content b ≡ encode_all ds)
      × ((cmp a b ≡ lt) ↔ IsBefore cs ds)
      × ((cmp a b ≡ eq) ↔ (cs ≡ ds))
unfolding cmp
cmp-IsBefore a b va vb =
    let (cs, hc, e) = IsUtf8-chars (content a) ((is_valid_iff a).0 va) in
    let (ds, hd, e') = IsUtf8-chars (content b) ((is_valid_iff b).0 vb) in
    let same =
      ap (λ s. bytes_cmp s (content b)) e
      ∙ (ap (bytes_cmp (encode_all cs)) e' ∙ bytes_cmp-encode_all cs ds hc hd) in
    (
      cs,
      ds,
      hc,
      hd,
      e,
      e',
      (λ h. IsBefore-bytes_cmp cs ds (rw same at h), λ h. rw same (bytes_cmp-IsBefore cs ds h)),
      (λ h. bytes_cmp_sound cs ds (rw same at h), λ h. rw same (rw h (bytes_cmp_refl ds))),
    )
