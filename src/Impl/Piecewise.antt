-- ===== src/Impl/Piecewise.antt =====
-- A string that is pushed to a builder character by character, and the ways to make a value of the
-- whole string, across src/fs_buffer.rs, src/fs_core.rs and src/fs_impl.rs.
use fixed_str.Common.{
  ℕ, ◌-◌, ◌^◌, ◌<◌, ◌≡◌, refl, List, ◌∙◌, inl, inr, arith, length, leb, lt→leb, le→leb,
  if◌then◌else◌, All,
}
use fixed_str.Error.{Outcome, err, overflow}
use fixed_str.Utf8.Chars.{encode_all, encode_all-IsUtf8}
use fixed_str.Helpers.Null.{find_first_null-NoNull}
use fixed_str.Helpers.Fit.{fit, fit-All}
use fixed_str.EffectiveBytes.Content.{effective_bytes_of_NoNull}
use fixed_str.Core.{new_const}
use fixed_str.Core.Fit.{new_const-fit}
use fixed_str.Buffer.{default, finalize}
use fixed_str.Buffer.View.{text}
use fixed_str.Buffer.Finish.{finalize_lem}
use fixed_str.Buffer.Each.{
  push_chars, IsLetter, IsEnd, push_chars-IsPushed, scalars, encode_all-NoNull,
}
use fixed_str.Impl.{try_from}
use fixed_str.Impl.Agree.{default-IsBuf}
use fixed_str.Impl.Strict.{try_from-strict}

-- The strict `try_from` makes of the whole string what `new_const` makes, if it fits.
try_from-new_const :
    (N : ℕ) (cs : List ℕ) (r : Outcome (Unit {0}))
    → 0 < N
    → All IsLetter cs
    → IsEnd N cs r
    → try_from N (encode_all cs) ≡ (
        if leb (length (encode_all cs)) N
        then new_const N (encode_all cs)
        else err (overflow N (length (encode_all cs))))
try_from-new_const N cs r pos letters end =
    let s = encode_all cs in
    let clean = encode_all-NoNull cs letters in
    rw
      (
        try_from-strict N pos s (encode_all-IsUtf8 cs (scalars cs letters)),
        find_first_null-NoNull s clean,
        effective_bytes_of_NoNull s clean,
        new_const-fit N cs pos (scalars cs letters),
      )
      (elim end [
        | inl (small, all, done) ↦ rw (le→leb (length s) N small, all) refl
        | inr (c, rest, split, big, tight, short, failed) ↦ rw (lt→leb (length s) N big) refl
      ])

-- Of a string of characters other than the null, at a capacity from 1 to 2^63 - 1: pushed to an
-- empty builder one after another by `try_push_char` up to the first error, the characters make by
-- `finalize` the value that `new_const` makes of the whole string. The loop ends without an error
-- behind the last character of a string that fits. In any other it ends at the first character
-- that does not fit, with less than four bytes unused, and the error names these and the length of
-- that character. `try_from` of the whole string makes the same value where it fits, and reports
-- the capacity and the length otherwise.
pub finalize-push_chars :
    (N : ℕ) (cs : List ℕ)
    → 0 < N
    → N < 2 ^ 63
    → All IsLetter cs
    → (finalize (push_chars (default N) cs).0 ≡ new_const N (encode_all cs))
      × IsEnd N cs (push_chars (default N) cs).1
      × (try_from N (encode_all cs) ≡ (
          if leb (length (encode_all cs)) N
          then new_const N (encode_all cs)
          else err (overflow N (length (encode_all cs)))))
unfolding default
finalize-push_chars N cs pos small letters =
    let b = (push_chars (default N) cs).0 in
    let (w, t, end) = push_chars-IsPushed (default N) cs (default-IsBuf N small) letters in
    let room : N - 0 ≡ N = omega arith in
    let whole : text b ≡ encode_all (fit N cs) = rw room at t in
    let kept = fit-All IsLetter N cs letters in
    let clean = effective_bytes_of_NoNull (text b) (rw whole (encode_all-NoNull (fit N cs) kept)) in
    let valid = encode_all-IsUtf8 (fit N cs) (scalars (fit N cs) kept) in
    let end' : IsEnd N cs (push_chars (default N) cs).1 = rw room at end in
    (
      finalize_lem b w pos (rw (clean, whole) valid)
          ∙ rw (clean, whole, new_const-fit N cs pos (scalars cs letters)) refl,
      end',
      try_from-new_const N cs (push_chars (default N) cs).1 pos letters end',
    )
