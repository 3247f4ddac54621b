-- ===== src/Buffer/Clean.antt =====
-- Builders of src/fs_buffer.rs under any sequence of calls, `truncate` included.
use native.Mathlib.Decide.{dec_lt}
use fixed_str.Common.{
  ℕ, ◌-◌, ◌<◌, ◌≤◌, ◌≡◌, refl, List, [], ◌∷◌, length, arith, not, ◌++◌, ◌==◌, if◌then◌else◌, ◌^◌,
  ap, length-take,
}
use fixed_str.Error.{ok}
use fixed_str.Utf8.{Bytes, encode_utf8, from_utf8}
use fixed_str.Slice.{Returns, Returns→ok, zeros, length-zeros}
use fixed_str.EffectiveBytes.{effective_bytes}
use fixed_str.Helpers.Search.{IsSlice}
use fixed_str.Core.Access.{IsPrefixCut, truncate_utf8_lossy-IsPrefixCut}
use fixed_str.Core.Construct.{IsPrefixOf}
use fixed_str.Buffer.{
  FixedStrBuf, append, default, try_push_str, try_push_char, push_str_lossy, clear, finalize,
  try_as_str,
}
use fixed_str.Buffer.View.{IsBuf, text, appended, append_lem, appended-IsBuf}
use fixed_str.Buffer.Push.{
  try_push_str_fits, try_push_str_full, push_str_lossy_whole, push_str_lossy_kept,
}
use fixed_str.Buffer.Cut.{
  IsClean, truncate-text, truncate-IsClean, appended-IsClean, effective_bytes-text,
}
use fixed_str.Buffer.Finish.{finalize-IsPrefixOf}
use fixed_str.Buffer.History.{
  Change, pushing, pushing_lossy, pushing_char, clearing, cutting, apply, apply_all,
}

-- Well-formed, with only nulls behind the text.
pub record IsTidy {N : ℕ} (b : FixedStrBuf N) : Type 0 where
  pub buf : IsBuf b
  pub clean : IsClean b

-- A lossy argument is no longer than a slice can be.
abbrev pub IsSmall : Change → Type 0
IsSmall (pushing_lossy s) = IsSlice s
IsSmall _ = Unit

abbrev pub AllSmall : List Change → Type 0
AllSmall [] = Unit
AllSmall (c ∷ cs) = IsSmall c × AllSmall cs

module _ {N : ℕ} (b : FixedStrBuf N) (tidy : IsTidy b) where
  appended-IsTidy : (s : Bytes) → length s ≤ N - b.len → IsTidy (appended b tidy.buf s)
  appended-IsTidy s fits = record {
    buf = appended-IsBuf b tidy.buf s fits;
    clean = appended-IsClean b tidy.buf tidy.clean s fits;
  }

  try_push_str-IsTidy : (s : Bytes) → IsTidy (try_push_str b s).0
  try_push_str-IsTidy s = elim (dec_lt (N - b.len) (length (effective_bytes s))) [
    | yes big ↦ rw (try_push_str_full b tidy.buf s big) tidy
    | no fits ↦
        rw (try_push_str_fits b tidy.buf s (omega arith))
          (appended-IsTidy (effective_bytes s) (omega arith))
  ]

  append_part-IsTidy :
      (s : Bytes)
      → length s ≤ N - b.len
      → (b' : FixedStrBuf N) × ((if not (length s == 0) then append b s else ok b) ≡ ok b')
        × IsTidy b'
  append_part-IsTidy [] fits = (b, refl, tidy)
  append_part-IsTidy (x ∷ s) fits = (
    appended b tidy.buf (x ∷ s),
    ground (arith, append_lem b tidy.buf (x ∷ s) fits),
    appended-IsTidy (x ∷ s) fits,
  )

  push_str_lossy-IsTidy : (s : Bytes) → IsSlice s → IsTidy (push_str_lossy b s).0
  push_str_lossy-IsTidy s small = elim (dec_lt (N - b.len) (length s)) [
    | no fits ↦
        let (b', e, t) = append_part-IsTidy s (omega arith) in
        rw (push_str_lossy_whole b tidy.buf s b' (omega arith) e) t
    | yes big ↦
        let (p, e, (n, cut, whole, valid)) =
          Returns→ok _ (IsPrefixCut s (N - b.len))
            (truncate_utf8_lossy-IsPrefixCut s (N - b.len) small) in
        let size : length p ≤ N - b.len = rw whole (omega (arith, length-take n s, cut.within)) in
        let (b', e', t) = append_part-IsTidy p size in
        rw (push_str_lossy_kept b tidy.buf s p b' big e size e') t
  ]

  apply-IsTidy : (c : Change) → IsSmall c → IsTidy (apply b c)
  unfolding apply try_push_char clear
  apply-IsTidy (pushing s) small = try_push_str-IsTidy s
  apply-IsTidy (pushing_lossy s) small = push_str_lossy-IsTidy s small
  apply-IsTidy (pushing_char c) small = try_push_str-IsTidy (encode_utf8 c)
  apply-IsTidy clearing small = record {
    buf = record { size = length-zeros N; room = omega arith; small = tidy.buf.small };
    clean = record { tail = let all : N ≡ N - 0 = omega arith in ap zeros all };
  }
  apply-IsTidy (cutting k) small = record {
    buf = (truncate-text b tidy.buf k).2;
    clean = truncate-IsClean b tidy.buf tidy.clean k;
  }

apply_all-IsTidy :
    {N : ℕ} (b : FixedStrBuf N) (cs : List Change)
    → AllSmall cs
    → IsTidy b
    → IsTidy (apply_all b cs)
unfolding apply_all
apply_all-IsTidy b [] small tidy = tidy
apply_all-IsTidy b (c ∷ cs) (s, ss) tidy =
    apply_all-IsTidy (apply b c) cs ss (apply-IsTidy b tidy c s)

default-IsTidy : (N : ℕ) → N < 2 ^ 63 → IsTidy (default N)
unfolding default
default-IsTidy N small = record {
  buf = record { size = length-zeros N; room = omega arith; small = small };
  clean = record { tail = let all : N ≡ N - 0 = omega arith in ap zeros all };
}

-- After any sequence of pushes, lossy pushes of bytes shorter than 2^63, `clear` and `truncate` on
-- an empty builder with a capacity from 1 to 2^63 - 1, the builder is well-formed with only nulls
-- behind its text, `try_as_str` looks at the text up to its first null, and `finalize` returns a
-- valid value, a valid prefix of the text up to its first null, ended as `IsCut` says.
pub try_as_str-apply_all :
    (N : ℕ) (cs : List Change)
    → 0 < N
    → N < 2 ^ 63
    → AllSmall cs
    → IsTidy (apply_all (default N) cs)
      × (try_as_str (apply_all (default N) cs)
          ≡ from_utf8 (effective_bytes (text (apply_all (default N) cs))))
      × Returns (finalize (apply_all (default N) cs)) (
          IsPrefixOf
            (text (apply_all (default N) cs) ++ zeros (N - (apply_all (default N) cs).len)))
unfolding try_as_str
try_as_str-apply_all N cs pos small ss =
    let b = apply_all (default N) cs in
    let tidy = apply_all-IsTidy (default N) cs ss (default-IsTidy N small) in
    (
      tidy,
      ap from_utf8 (effective_bytes-text b tidy.buf tidy.clean),
      finalize-IsPrefixOf b tidy.buf pos,
    )
