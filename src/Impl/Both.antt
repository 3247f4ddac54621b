-- ===== src/Impl/Both.antt =====
-- Operations that both types have: `truncate` and `TryFrom<&[u8]>`, of src/fs_core.rs,
-- src/fs_impl.rs and src/fs_buffer.rs.
use fixed_str.Common.{ℕ, ◌<◌, ◌≡◌, ap, sym, ◌∙◌, length, take, leb, ltb, if◌then◌else◌}
use fixed_str.Error.{ok, err, overflow, invalid_utf8}
use fixed_str.Utf8.{Bytes, is_utf8}
use fixed_str.Helpers.{find_first_null}
use fixed_str.Helpers.Copy.{pad}
use fixed_str.EffectiveBytes.{effective_bytes}
use fixed_str.Core.{FixedStr, content, truncate}
use fixed_str.Core.Access.{IsFixedStr}
use fixed_str.Core.Modify.{truncate-content}
use fixed_str.Buffer
use fixed_str.Buffer.{FixedStrBuf, from_fixed}
use fixed_str.Buffer.View.{IsBuf, text}
use fixed_str.Buffer.Cut.{truncate-text}
use fixed_str.Buffer.Finish.{from_fixed-IsBuf, text-from_fixed, try_from-pad}
use fixed_str.Impl
use fixed_str.Impl.Convert.{try_from_lem}

-- On a well-formed value and a well-formed builder `truncate` returns, keeps them well-formed, and
-- cuts the content of the value and the text of the builder at `new_len` bytes. A value that is
-- cut has the content that a builder made of it has as its text when that is cut.
pub truncate-truncate :
    {N : ℕ} (fs : FixedStr N) (b : FixedStrBuf N) (new_len : ℕ)
    → IsFixedStr fs
    → IsBuf b
    → ((truncate fs new_len).1 ≡ ok tt)
      × IsFixedStr (truncate fs new_len).0
      × (content (truncate fs new_len).0 ≡ take new_len (content fs))
      × ((Buffer.truncate b new_len).1 ≡ ok tt)
      × IsBuf (Buffer.truncate b new_len).0
      × (text (Buffer.truncate b new_len).0 ≡ take new_len (text b))
      × (text (Buffer.truncate (from_fixed fs) new_len).0 ≡ content (truncate fs new_len).0)
truncate-truncate fs b new_len wf wf' =
    let (done, sound, cut) = truncate-content fs wf new_len in
    let (cut', done', sound') = truncate-text b wf' new_len in
    let (cut'', _, _) = truncate-text (from_fixed fs) (from_fixed-IsBuf fs wf) new_len in
    (
      done,
      sound,
      cut,
      done',
      sound',
      cut',
      cut'' ∙ ap (take new_len) (text-from_fixed fs wf) ∙ sym cut,
    )

-- At a capacity above 0, `try_from` of a value looks at the bytes before the first null: it
-- refuses what is too long, with the length of that part, then what is not UTF-8, and keeps all of
-- the rest, padded with nulls. `try_from` of a builder takes every slice that fits, valid or not,
-- with the index of the first null as its length, and refuses a longer slice, with its full
-- length.
pub try_from-try_from :
    (N : ℕ) (s : Bytes)
    → 0 < N
    → (Impl.try_from N s ≡ (
        if ltb N (find_first_null s)
        then err (overflow N (find_first_null s))
        else if is_utf8 (effective_bytes s)
        then ok (record { bytes = pad N (effective_bytes s) })
        else err invalid_utf8))
      × (Buffer.try_from N s ≡ (
          if leb (length s) N
          then ok (record { buffer = pad N s; len = find_first_null s })
          else err (overflow N (length s))))
try_from-try_from N s pos = (try_from_lem N s pos, try_from-pad N s pos)
