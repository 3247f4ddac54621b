-- ===== src/Buffer/View.antt =====
-- The abstract view of a builder of src/fs_buffer.rs: the text written so far.
use fixed_str.Common.{
  ℕ, ◌+◌, ◌-◌, ◌≤◌, ◌<◌, ◌≡◌, refl, ◌^◌, length, take, drop, arith, ◌++◌, length-take, length-drop,
  length-append, take-append, append_assoc, le→leb,
}
use fixed_str.Error.{ok}
use fixed_str.Utf8.{Bytes}
use fixed_str.Slice.{copy_from_slice_lem}
use fixed_str.Buffer.{FixedStrBuf, remaining, append}

pub record IsBuf {N : ℕ} (b : FixedStrBuf N) : Type 0 where
  pub size : length b.buffer ≡ N
  pub room : b.len ≤ N
  pub small : N < 2 ^ 63

-- The text written so far.
abbrev pub text : {N : ℕ} → FixedStrBuf N → Bytes
text b = take b.len b.buffer

module _ {N : ℕ} (b : FixedStrBuf N) (wf : IsBuf b) where
  pub length-text : length (text b) ≡ b.len
  length-text = omega (arith, length-take b.len b.buffer, wf.size, wf.room)

  pub remaining_lem : remaining b ≡ ok (N - b.len)
  unfolding remaining
  remaining_lem = rw (le→leb b.len N wf.room)

  -- The state after the bytes `s` have been written.
  abbrev pub appended : Bytes → FixedStrBuf N
  appended s = record {
    buffer = text b ++ (s ++ drop (b.len + length s) b.buffer);
    len = b.len + length s;
  }

  pub append_lem : (s : Bytes) → length s ≤ N - b.len → append b s ≡ ok (appended s)
  unfolding append
  append_lem s fits =
      rw
        (copy_from_slice_lem b.buffer s b.len (b.len + length s) refl
          (omega (arith, wf.size, wf.room)))
        refl

  pub text-appended : (s : Bytes) → text (appended s) ≡ text b ++ s
  text-appended s = rw (← append_assoc (text b) s (drop (b.len + length s) b.buffer)) (
      take-append (text b ++ s) (drop (b.len + length s) b.buffer) (b.len + length s)
        (omega (arith, length-append (text b) s, length-text)))

  pub appended-IsBuf : (s : Bytes) → length s ≤ N - b.len → IsBuf (appended s)
  appended-IsBuf s fits = record {
    size = omega (
      arith,
      length-append (text b) (s ++ drop (b.len + length s) b.buffer),
      length-append s (drop (b.len + length s) b.buffer),
      length-drop (b.len + length s) b.buffer,
      length-text,
      wf.size,
      wf.room,
    );
    room = omega (arith, wf.room);
    small = wf.small;
  }
