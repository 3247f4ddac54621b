-- ===== src/Buffer/Finish.antt =====
-- `finalize`, and the conversions between a builder and a `FixedStr`.
use fixed_str.Common.{
  ℕ, ◌+◌, ◌-◌, ◌≤◌, ◌<◌, ◌≡◌, ◌≢◌, refl, leb, length, arith, ◌++◌, ◌∙◌, sym, [], ◌∷◌, append-nil,
  ap, true, lt→leb, le→leb, if◌then◌else◌, length-append, drop-append_add,
}
use native.Mathlib.Decide.{dec_lt}
use fixed_str.Error.{ok, err, overflow, ◌>>=◌}
use fixed_str.Utf8.{Bytes, IsUtf8}
use fixed_str.Slice.{zeros, length-zeros, fill_zero_lem, Returns}
use fixed_str.Helpers.{find_first_null}
use fixed_str.Helpers.Null.{NoNull, find_first_null-le, find_first_null-pad}
use fixed_str.Helpers.Copy.{pad, copy_into_buffer_exact, copy_into_buffer_overflow}
use fixed_str.EffectiveBytes.{effective_bytes}
use fixed_str.EffectiveBytes.Content.{
  effective_bytes-append_zeros, effective_bytes-pad, effective_bytes_idem, length-effective_bytes,
  effective_bytes_of_NoNull, effective_bytes-append_NoNull, effective_bytes-null,
}
use fixed_str.Core
use fixed_str.Core.{FixedStr, content, is_valid}
use fixed_str.Core.Access.{IsFixedStr, is_valid_iff}
use fixed_str.Core.Construct.{
  IsPrefixOf, new-IsPrefixOf, new_fits, from_bytes-new, from_bytes_unsafe_lem,
}
use fixed_str.Buffer.{FixedStrBuf, finalize, finalize_unsafe, from_fixed, try_from, try_push_str}
use fixed_str.Buffer.View.{IsBuf, text, length-text, text-appended}
use fixed_str.Buffer.Push.{try_push_str_fits}

module _ {N : ℕ} (b : FixedStrBuf N) (wf : IsBuf b) (pos : 0 < N) where
  filled : Bytes
  filled = text b ++ zeros (N - b.len)

  length-filled : length filled ≡ N
  unfolding filled
  length-filled = omega (
    arith,
    length-append (text b) (zeros (N - b.len)),
    length-text b wf,
    length-zeros (N - b.len),
    wf.room,
  )

  -- Where the text of a well-formed builder with a capacity above 0 is valid UTF-8 up to its first
  -- null, `finalize` returns that part, padded with nulls.
  pub finalize_lem :
      IsUtf8 (effective_bytes (text b))
      → finalize b ≡ ok (record { bytes = pad N (effective_bytes (text b)) })
  unfolding finalize filled
  finalize_lem valid =
      let same = effective_bytes-append_zeros (text b) (N - b.len) in
      rw
        (
          fill_zero_lem b.buffer b.len N wf.room (sym wf.size),
          from_bytes-new N filled,
          new_fits N filled pos (rw same valid)
              (omega (arith, find_first_null-le filled, length-filled)),
          same,
        )
        refl

  -- `finalize` makes a value of the text and the nulls behind it.
  pub finalize-new : finalize b ≡ Core.new N (text b ++ zeros (N - b.len))
  unfolding finalize filled
  finalize-new =
      rw (fill_zero_lem b.buffer b.len N wf.room (sym wf.size), ◌>>=◌) (from_bytes-new N filled)

  pub finalize-IsPrefixOf : Returns (finalize b) (IsPrefixOf (text b ++ zeros (N - b.len)))
  unfolding filled
  finalize-IsPrefixOf =
      rw finalize-new (new-IsPrefixOf N filled pos (omega (arith, length-filled, wf.small)))

  -- `finalize_unsafe` keeps the text whatever it is.
  pub finalize_unsafe_lem : finalize_unsafe b ≡ ok (record { bytes = text b ++ zeros (N - b.len) })
  unfolding finalize_unsafe filled
  finalize_unsafe_lem =
      rw
        (
          fill_zero_lem b.buffer b.len N wf.room (sym wf.size),
          from_bytes_unsafe_lem N filled pos length-filled,
        )
        refl

  -- On any well-formed builder with a capacity above 0, `finalize` returns a valid value whose
  -- content is a valid prefix of the text up to its first null, ended as `IsCut` says, and
  -- `finalize_unsafe` returns the text, padded with nulls.
  pub finalize-finalize_unsafe :
      Returns (finalize b) (IsPrefixOf (text b ++ zeros (N - b.len)))
      × (finalize_unsafe b ≡ ok (record { bytes = text b ++ zeros (N - b.len) }))
  finalize-finalize_unsafe = (finalize-IsPrefixOf, finalize_unsafe_lem)

module _ {N : ℕ} (fs : FixedStr N) (wf : IsFixedStr fs) where
  pub from_fixed-IsBuf : IsBuf (from_fixed fs)
  unfolding from_fixed Core.len
  from_fixed-IsBuf = record {
    size = wf.size;
    room = omega (arith, find_first_null-le fs.bytes, wf.size);
    small = wf.small;
  }

  pub text-from_fixed : text (from_fixed fs) ≡ content fs
  unfolding from_fixed Core.len effective_bytes
  text-from_fixed = refl

  -- A well-formed valid value with a capacity above 0 that is turned into a builder and finalized
  -- comes back with the same content.
  pub finalize-from_fixed :
      0 < N
      → is_valid fs ≡ true
      → Returns (finalize (from_fixed fs)) (λ gs. content gs ≡ content fs)
  finalize-from_fixed pos valid =
      let same = ap effective_bytes text-from_fixed ∙ effective_bytes_idem fs.bytes in
      rw
        (
          finalize_lem (from_fixed fs) from_fixed-IsBuf pos (rw same ((is_valid_iff fs).0 valid)),
          same,
        )
        (effective_bytes-pad N (content fs) ∙ effective_bytes_idem fs.bytes)

-- At a capacity above 0, `try_from` of a builder takes every slice that fits, valid or not, and
-- its text is the slice up to the first null. It refuses a longer slice, with its full length.
pub try_from-pad :
    (N : ℕ) (s : Bytes)
    → 0 < N
    → try_from N s ≡ (
        if leb (length s) N
        then ok (record { buffer = pad N s; len = find_first_null s })
        else err (overflow N (length s)))
unfolding try_from
try_from-pad N s pos = elim (dec_lt N (length s)) [
  | yes big ↦ rw (lt→leb (length s) N big, copy_into_buffer_overflow N s pos big) refl
  | no fits ↦
      rw
        (
          le→leb (length s) N (omega arith),
          copy_into_buffer_exact N s pos (omega arith),
          find_first_null-pad s (N - length s),
        )
        refl
]

-- A value with bytes behind the null that ends its content.
abbrev pub stale : {N : ℕ} → Bytes → Bytes → FixedStr N
stale c t = record { bytes = c ++ 0 ∷ t }

pub content-stale : (c t : Bytes) → NoNull c → effective_bytes (c ++ 0 ∷ t) ≡ c
content-stale c t h =
    effective_bytes-append_NoNull c (0 ∷ t) h
    ∙ ap (λ s. c ++ s) (effective_bytes-null t)
    ∙ append-nil c

-- A well-formed value has a content without nulls, a null, and more bytes. A builder made of it,
-- after a push of a byte that is not null, has the content and that byte as its text, and its
-- effective bytes go on with the bytes that stood behind the null.
pub from_fixed-stale :
    (N : ℕ) (c t : Bytes) (y : ℕ)
    → NoNull c
    → y ≢ 0
    → IsFixedStr {N = N} (stale c t)
    → (text (try_push_str (from_fixed {N = N} (stale c t)) (y ∷ [])).0 ≡ c ++ y ∷ [])
      × (effective_bytes (try_push_str (from_fixed {N = N} (stale c t)) (y ∷ [])).0.buffer
          ≡ c ++ y ∷ effective_bytes t)
unfolding from_fixed Core.len
from_fixed-stale N c t y h ne wf =
    let fs : FixedStr N = stale c t in
    let b = from_fixed fs in
    let bw = from_fixed-IsBuf fs wf in
    let old : text b ≡ c = text-from_fixed fs wf ∙ content-stale c t h in
    let at : find_first_null (c ++ 0 ∷ t) ≡ length c =
      sym (length-effective_bytes (c ++ 0 ∷ t)) ∙ ap length (content-stale c t h) in
    let one = effective_bytes_of_NoNull (y ∷ []) (ne, tt) in
    let room : length (effective_bytes (y ∷ [])) ≤ N - b.len =
      rw one (omega (arith, wf.size, at, length-append c (0 ∷ t))) in
    let behind = drop-append_add c (0 ∷ t) (b.len + 1) 1 (omega (arith, at)) in
    rw (try_push_str_fits b bw (y ∷ []) room, one)
      (
        text-appended b bw (y ∷ []) ∙ ap (λ s. s ++ y ∷ []) old,
        rw (behind, old)
            (effective_bytes-append_NoNull c (y ∷ t) h
              ∙ ap (λ s. c ++ s) (effective_bytes-append_NoNull (y ∷ []) t (ne, tt))),
      )
