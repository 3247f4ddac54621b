-- ===== src/Buffer/Each.antt =====
-- Characters pushed one after another to the builder of src/fs_buffer.rs, up to the first that does
-- not fit.
use fixed_str.Common.{
  ℕ, ◌+◌, ◌-◌, ◌≤◌, ◌<◌, ◌≡◌, ◌≢◌, refl, [], ◌∷◌, ◌++◌, List, ◌⊎◌, inl, inr, ◌∙◌, sym, ap, arith,
  length, lt→leb, le→leb, true, length-append, append_assoc, append-nil, All, All-append,
}
use native.Mathlib.Decide.{dec_lt}
use fixed_str.Error.{Outcome, ok, err, panic, overflow}
use fixed_str.Utf8.{encode_utf8, is_scalar}
use fixed_str.Utf8.Encode.{length-encode_utf8}
use fixed_str.Utf8.Chars.{encode_all, AllScalar}
use fixed_str.Helpers.Null.{NoNull}
use fixed_str.Helpers.Fit.{fit}
use fixed_str.EffectiveBytes.{effective_bytes}
use fixed_str.Buffer.{FixedStrBuf, try_push_char}
use fixed_str.Buffer.View.{IsBuf, text, appended, text-appended, appended-IsBuf}
use fixed_str.Buffer.Char.{encode_utf8-NoNull, effective_bytes-encode_utf8}
use fixed_str.Buffer.Push.{try_push_str_fits, try_push_str_full}

-- `?` of a call on `&mut self`, with what comes after it.
abbrev pub and_then :
    {N : ℕ}
    → FixedStrBuf N × Outcome (Unit {0})
    → (FixedStrBuf N → FixedStrBuf N × Outcome (Unit {0}))
    → FixedStrBuf N × Outcome (Unit {0})
and_then (b, ok u) rest = rest b
and_then (b, err e) rest = (b, err e)
and_then (b, panic) rest = (b, panic)

-- `for c in s.chars() {b.try_push_char(c)?; }`
unfoldable pub push_chars : {N : ℕ} → FixedStrBuf N → List ℕ → FixedStrBuf N × Outcome (Unit {0})
push_chars b [] = (b, ok tt)
push_chars b (c ∷ cs) = and_then (try_push_char b c) λ b'. push_chars b' cs

-- A character other than the null.
abbrev pub IsLetter : ℕ → Type 0
IsLetter c = (is_scalar c ≡ true) × (c ≢ 0)

pub scalars : (cs : List ℕ) → All IsLetter cs → AllScalar cs
scalars [] letters = tt
scalars (c ∷ cs) ((scalar, ne), letters) = (scalar, scalars cs letters)

pub encode_all-NoNull : (cs : List ℕ) → All IsLetter cs → NoNull (encode_all cs)
encode_all-NoNull [] letters = tt
encode_all-NoNull (c ∷ cs) ((scalar, ne), letters) =
    All-append (λ b. b ≢ 0) (encode_utf8 c) (encode_all cs) (encode_utf8-NoNull c (omega arith))
      (encode_all-NoNull cs letters)

-- How the loop ends with `room` bytes left: behind the last character, or at the first that does
-- not fit, with the room that is left and the length of that character.
abbrev pub IsEnd : ℕ → List ℕ → Outcome (Unit {0}) → Type 0
IsEnd room cs r =
    ((length (encode_all cs) ≤ room) × (fit room cs ≡ cs) × (r ≡ ok tt))
    ⊎ ((c : ℕ) × (rest : List ℕ) × (cs ≡ fit room cs ++ c ∷ rest)
        × (room < length (encode_all cs))
        × (room < length (encode_all (fit room cs)) + length (encode_utf8 c))
        × (room < length (encode_all (fit room cs)) + 4)
        × (r ≡ err (overflow (room - length (encode_all (fit room cs))) (length (encode_utf8 c)))))

module _ {N : ℕ} (b : FixedStrBuf N) (wf : IsBuf b) (c : ℕ) (letter : IsLetter c) where
  letter_bytes : effective_bytes (encode_utf8 c) ≡ encode_utf8 c
  letter_bytes = let ne = letter.1 in ground (arith, effective_bytes-encode_utf8 c)

  letter_fits :
      length (encode_utf8 c) ≤ N - b.len
      → try_push_char b c ≡ (appended b wf (encode_utf8 c), ok tt)
  unfolding try_push_char
  letter_fits fits =
      rw (try_push_str_fits b wf (encode_utf8 c) (rw letter_bytes fits), letter_bytes) refl

  letter_full :
      N - b.len < length (encode_utf8 c)
      → try_push_char b c ≡ (b, err (overflow (N - b.len) (length (encode_utf8 c))))
  unfolding try_push_char
  letter_full big =
      rw (try_push_str_full b wf (encode_utf8 c) (rw letter_bytes big), letter_bytes) refl

-- What the loop leaves: the characters that fit behind the text.
abbrev pub IsPushed : {N : ℕ} → FixedStrBuf N → List ℕ → FixedStrBuf N × Outcome (Unit {0}) → Type 0
IsPushed {N} b cs (b', r) =
    IsBuf b' × (text b' ≡ text b ++ encode_all (fit (N - b.len) cs)) × IsEnd (N - b.len) cs r

encode_all-fit :
    (room c : ℕ) (cs : List ℕ)
    → length (encode_utf8 c) ≤ room
    → encode_all (fit room (c ∷ cs))
      ≡ encode_utf8 c ++ encode_all (fit (room - length (encode_utf8 c)) cs)
encode_all-fit room c cs fits = rw (le→leb (length (encode_utf8 c)) room fits) refl

-- One more character in front of a loop.
IsEnd-cons :
    (room : ℕ) (c : ℕ) (cs : List ℕ) (r : Outcome (Unit {0}))
    → length (encode_utf8 c) ≤ room
    → IsEnd (room - length (encode_utf8 c)) cs r
    → IsEnd room (c ∷ cs) r
IsEnd-cons room c cs r fits (inl (small, all, done)) =
    rw (le→leb (length (encode_utf8 c)) room fits, all)
      (inl (omega (arith, length-append (encode_utf8 c) (encode_all cs)), refl, done))
IsEnd-cons room c cs r fits (inr (d, rest, split, big, tight, short, failed)) =
    let e = encode_utf8 c in
    let part = encode_all (fit (room - length e) cs) in
    let n = length-append e part in
    let left : room - length e - length part ≡ room - length (e ++ part) = omega (arith, n) in
    rw (le→leb (length e) room fits) (
      inr (
        d,
        rest,
        ap (λ l. c ∷ l) split,
        omega (arith, length-append e (encode_all cs)),
        omega (arith, n),
        omega (arith, n),
        rw left at failed,
      ))

pub push_chars-IsPushed :
    {N : ℕ} (b : FixedStrBuf N) (cs : List ℕ)
    → IsBuf b
    → All IsLetter cs
    → IsPushed b cs (push_chars b cs)
unfolding push_chars
push_chars-IsPushed b [] wf letters = (wf, sym (append-nil (text b)), inl (omega arith, refl, refl))
push_chars-IsPushed {N} b (c ∷ cs) wf (letter, letters) =
    let e = encode_utf8 c in
    elim (dec_lt (N - b.len) (length e)) [
      | yes big ↦
          rw (letter_full b wf c letter big, lt→leb (length e) (N - b.len) big)
            (
              wf,
              sym (append-nil (text b)),
              inr (
                c,
                cs,
                refl,
                omega (arith, length-append e (encode_all cs)),
                omega arith,
                omega (arith, length-encode_utf8 c),
                ap (λ n. err (overflow n (length e))) (same (N - b.len)),
              ),
            )
      | no fits ↦
          let (w, t, end) =
            push_chars-IsPushed (appended b wf e) cs (appended-IsBuf b wf e (omega arith))
              letters in
          let room : N - (b.len + length e) ≡ N - b.len - length e = omega arith in
          rw (letter_fits b wf c letter (omega arith)) (
            w,
            t
                ∙ rw
                    (
                      text-appended b wf e,
                      room,
                      encode_all-fit (N - b.len) c cs (omega arith),
                      append_assoc (text b) e (encode_all (fit (N - b.len - length e) cs)),
                    )
                    refl,
            IsEnd-cons (N - b.len) c cs (push_chars (appended b wf e) cs).1 (omega arith)
                (rw room at end),
          )
    ]
  where
    same : (n : ℕ) → n ≡ n - 0
    same n = omega arith
