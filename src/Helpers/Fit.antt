-- ===== src/Helpers/Fit.antt =====
-- The characters that fit into a number of bytes, and `find_valid_boundary` of src/string_helpers.rs.
use native.Mathlib.Decide.{dec_lt}
use fixed_str.Common.{
  ℕ, zero, suc, ◌-◌, ◌≤◌, ◌<◌, ◌≡◌, refl, min, true, List, [], ◌∷◌, ◌++◌, arith, length, take, leb,
  All, if◌then◌else◌, le→leb, lt→leb, length-append, take-append_le, take-append_add, ◌∙◌, ap,
}
use fixed_str.Error.{ok}
use fixed_str.Utf8.{IsUtf8, is_scalar, encode_utf8, step, lead}
use fixed_str.Utf8.Encode.{encode_utf8-IsUtf8, length-encode_utf8}
use fixed_str.Utf8.Run.{IsUtf8-append_right}
use fixed_str.Utf8.Chars.{encode_all, AllScalar, encode_all-IsUtf8}
use fixed_str.Slice.{Returns→ok}
use fixed_str.Helpers.{find_valid_boundary}
use fixed_str.Helpers.Largest.{IsLargest}
use fixed_str.Helpers.Boundary.{find_valid_boundary-IsLargest}

-- The longest prefix of whole characters that takes at most `room` bytes.
abbrev pub fit : ℕ → List ℕ → List ℕ
fit room [] = []
fit room (c ∷ cs) =
    if leb (length (encode_utf8 c)) room then c ∷ fit (room - length (encode_utf8 c)) cs else []

-- No part of a character is a string.
pub encode_utf8_partial :
    (c m : ℕ)
    → is_scalar c ≡ true
    → 0 < m
    → m < length (encode_utf8 c)
    → ¬ IsUtf8 (take m (encode_utf8 c))
unfolding encode_utf8 step lead
encode_utf8_partial c zero h pos lt v = absurd (omega arith)
encode_utf8_partial c (suc zero) h pos lt v = ground arith
encode_utf8_partial c (suc (suc zero)) h pos lt v = ground arith
encode_utf8_partial c (suc (suc (suc zero))) h pos lt v = ground arith
encode_utf8_partial c (suc (suc (suc (suc m)))) h pos lt v =
    absurd (omega (arith, length-encode_utf8 c))

pub fit-All : (P : ℕ → Type 0) (room : ℕ) (cs : List ℕ) → All P cs → All P (fit room cs)
fit-All P room [] h = tt
fit-All P room (c ∷ cs) (h, hs) = elim (dec_lt room (length (encode_utf8 c))) [
  | yes big ↦ rw (lt→leb (length (encode_utf8 c)) room big) tt
  | no fits ↦
      rw (le→leb (length (encode_utf8 c)) room (omega arith))
        (h, fit-All P (room - length (encode_utf8 c)) cs hs)
]

-- The characters that fit encode a prefix within the room.
pub length-fit : (room : ℕ) (cs : List ℕ) → length (encode_all (fit room cs)) ≤ room
length-fit room [] = omega arith
length-fit room (c ∷ cs) = elim (dec_lt room (length (encode_utf8 c))) [
  | yes big ↦ rw (lt→leb (length (encode_utf8 c)) room big) (omega arith)
  | no fits ↦
      let rest = length-fit (room - length (encode_utf8 c)) cs in
      rw (le→leb (length (encode_utf8 c)) room (omega arith)) (
        omega (
          arith,
          length-append (encode_utf8 c) (encode_all (fit (room - length (encode_utf8 c)) cs)),
          rest,
        ))
]

pub take-fit :
    (room : ℕ) (cs : List ℕ)
    → (length (encode_all (fit room cs)) ≤ length (encode_all cs))
      × (take (length (encode_all (fit room cs))) (encode_all cs) ≡ encode_all (fit room cs))
take-fit room [] = (omega arith, refl)
take-fit room (c ∷ cs) = elim (dec_lt room (length (encode_utf8 c))) [
  | yes big ↦ rw (lt→leb (length (encode_utf8 c)) room big) (omega arith, refl)
  | no fits ↦
      let e = encode_utf8 c in
      let part = encode_all (fit (room - length e) cs) in
      let (small, same) = take-fit (room - length e) cs in
      let n = length-append e part in
      rw (le→leb (length e) room (omega arith)) (
        omega (arith, n, length-append e (encode_all cs), small),
        take-append_add e (encode_all cs) (length (e ++ part)) (length part) n
            ∙ ap (λ t. e ++ t) same,
      )
]

-- No longer prefix within the room is a string.
fit_largest :
    (room : ℕ) (cs : List ℕ) (m : ℕ)
    → AllScalar cs
    → m ≤ room
    → m ≤ length (encode_all cs)
    → IsUtf8 (take m (encode_all cs))
    → m ≤ length (encode_all (fit room cs))
fit_largest room [] m h hm hl v = hl
fit_largest room (c ∷ cs) zero h hm hl v = omega arith
fit_largest room (c ∷ cs) (suc k) (h, hs) hm hl v =
    let e = encode_utf8 c in
    elim (dec_lt (suc k) (length e)) [
      | yes inside ↦ absurd (
          encode_utf8_partial c (suc k) h (omega arith) inside
            (rw (take-append_le e (encode_all cs) (suc k) (omega arith)) at v))
      | no behind ↦
          let m = suc k - length e in
          let split = take-append_add e (encode_all cs) (suc k) m (omega arith) in
          let v' =
            IsUtf8-append_right e (take m (encode_all cs)) (encode_utf8-IsUtf8 c h)
              (rw split at v) in
          let rest =
            fit_largest (room - length e) cs m hs (omega arith)
              (omega (arith, length-append e (encode_all cs))) v' in
          rw (le→leb (length e) room (omega arith))
            (omega (arith, length-append e (encode_all (fit (room - length e) cs)), rest))
    ]

pub fit-IsLargest :
    (room : ℕ) (cs : List ℕ)
    → AllScalar cs
    → IsLargest
        (encode_all cs)
        (min room (length (encode_all cs)))
        (length (encode_all (fit room cs)))
fit-IsLargest room cs h =
    let (small, same) = take-fit room cs in
    record {
      within = omega (arith, small, length-fit room cs);
      valid =
          rw same (encode_all-IsUtf8 (fit room cs) (fit-All (λ c. is_scalar c ≡ true) room cs h));
      largest = λ m hm v. fit_largest room cs m h (omega arith) (omega arith) v;
    }

-- On the characters `cs` the scan stops behind those that fit.
pub find_valid_boundary-fit :
    (cs : List ℕ) (max_len : ℕ)
    → AllScalar cs
    → find_valid_boundary (encode_all cs) max_len ≡ ok (length (encode_all (fit max_len cs)))
find_valid_boundary-fit cs max_len h =
    let best = fit-IsLargest max_len cs h in
    let (n, e, best') =
      Returns→ok _ (IsLargest (encode_all cs) _)
        (find_valid_boundary-IsLargest (encode_all cs) max_len (encode_all-IsUtf8 cs h)) in
    let same : n ≡ length (encode_all (fit max_len cs)) = omega (
      arith,
      best.largest n best'.within best'.valid,
      best'.largest (length (encode_all (fit max_len cs))) best.within best.valid,
    ) in
    e ∙ ap ok same
