-- ===== src/Utf8/Chars.antt =====
-- Strings as lists of characters: the well-formed byte sequences are those that `encode_utf8` makes.
use fixed_str.Common.{
  ℕ, zero, suc, ◌≤◌, ◌≡◌, refl, true, List, [], ◌∷◌, ◌++◌, arith, length, All, length-append, ap,
  ◌∙◌,
}
use fixed_str.Utf8.{Bytes, IsUtf8, is_scalar, encode_utf8}
use fixed_str.Utf8.Run.{IsUtf8-append}
use fixed_str.Utf8.Encode.{encode_utf8-IsUtf8, length-encode_utf8}
use fixed_str.Utf8.Head.{IsUtf8-Head}

-- `cs.iter().collect::<String>()`
abbrev pub encode_all : List ℕ → Bytes
encode_all [] = []
encode_all (c ∷ cs) = encode_utf8 c ++ encode_all cs

abbrev pub AllScalar : List ℕ → Type 0
AllScalar = All (λ c. is_scalar c ≡ true)

pub encode_all-IsUtf8 : (cs : List ℕ) → AllScalar cs → IsUtf8 (encode_all cs)
encode_all-IsUtf8 [] h = refl
encode_all-IsUtf8 (c ∷ cs) (h, hs) =
    IsUtf8-append (encode_utf8 c) (encode_all cs) (encode_utf8-IsUtf8 c h) (encode_all-IsUtf8 cs hs)

chars_of :
    (n : ℕ) (s : Bytes)
    → length s ≤ n
    → IsUtf8 s
    → (cs : List ℕ) × AllScalar cs × (s ≡ encode_all cs)
chars_of n [] h v = ([], tt, refl)
chars_of zero (b ∷ s) h v = absurd (omega arith)
chars_of (suc n) (b ∷ s) h v =
    let head = IsUtf8-Head b s v in
    let size = ap length head.split ∙ length-append (encode_utf8 head.char) head.rest in
    let (cs, scalars, e) =
      chars_of n head.rest (omega (arith, size, length-encode_utf8 head.char)) head.valid in
    (head.char ∷ cs, (head.scalar, scalars), head.split ∙ ap (λ r. encode_utf8 head.char ++ r) e)

-- The strings are the encodings of lists of scalar values.
pub IsUtf8-chars : (s : Bytes) → IsUtf8 s → (cs : List ℕ) × AllScalar cs × (s ≡ encode_all cs)
IsUtf8-chars s v = chars_of (length s) s (omega arith) v
