-- ===== src/Utf8/Encode.antt =====
-- The encoding of a scalar value is well-formed.
use fixed_str.Common.{ℕ, ◌≤◌, ◌≡◌, true, length, arith}
use fixed_str.Utf8.{is_scalar, encode_utf8, IsUtf8, step, lead}

pub encode_utf8-IsUtf8 : (c : ℕ) → is_scalar c ≡ true → IsUtf8 (encode_utf8 c)
unfolding encode_utf8 step lead
encode_utf8-IsUtf8 c h = ground arith

-- One to four bytes.
pub length-encode_utf8 : (c : ℕ) → (1 ≤ length (encode_utf8 c)) × (length (encode_utf8 c) ≤ 4)
unfolding encode_utf8
length-encode_utf8 c = ground arith
