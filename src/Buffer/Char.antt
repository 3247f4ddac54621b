-- ===== src/Buffer/Char.antt =====
-- `try_push_char` of src/fs_buffer.rs.
use fixed_str.Common.{ℕ, ◌<◌, ◌≡◌, refl, [], ◌==◌, if◌then◌else◌, arith}
use native.Mathlib.Decide.{ℕ_discrete}
use fixed_str.Utf8.{Bytes, encode_utf8}
use fixed_str.Helpers.{find_first_null}
use fixed_str.Helpers.Null.{NoNull}
use fixed_str.EffectiveBytes.{effective_bytes}
use fixed_str.EffectiveBytes.Content.{effective_bytes_of_NoNull}
use fixed_str.Buffer.{FixedStrBuf, try_push_char}
use fixed_str.Buffer.View.{IsBuf, text}
use fixed_str.Buffer.Push.{push_spec, try_push_str-push_spec}

pub encode_utf8-NoNull : (c : ℕ) → 0 < c → NoNull (encode_utf8 c)
unfolding encode_utf8
encode_utf8-NoNull c pos = ground arith

-- The bytes that a character adds: the null adds none.
abbrev pub added : ℕ → Bytes
added c = if c == 0 then [] else encode_utf8 c

effective_bytes_of_null : effective_bytes (encode_utf8 0) ≡ []
unfolding effective_bytes find_first_null encode_utf8
effective_bytes_of_null = refl

pub effective_bytes-encode_utf8 : (c : ℕ) → effective_bytes (encode_utf8 c) ≡ added c
effective_bytes-encode_utf8 c = elim (ℕ_discrete c 0) [
  | yes e ↦ rw e effective_bytes_of_null
  | no ne ↦
      let whole = effective_bytes_of_NoNull (encode_utf8 c) (encode_utf8-NoNull c (omega arith)) in
      ground arith
]

-- On a well-formed builder `try_push_char` does to the text what `push_spec` does at the encoding
-- of the character, and at no bytes for the null character. The builder stays well-formed.
pub try_push_char-push_spec :
    {N : ℕ} (b : FixedStrBuf N) (c : ℕ)
    → IsBuf b
    → (text (try_push_char b c).0 ≡ (push_spec N (text b) (added c)).0)
      × ((try_push_char b c).1 ≡ (push_spec N (text b) (added c)).1)
      × IsBuf (try_push_char b c).0
unfolding try_push_char
try_push_char-push_spec b c wf =
    rw (effective_bytes-encode_utf8 c) at (try_push_str-push_spec b wf (encode_utf8 c))
