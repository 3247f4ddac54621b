-- ===== src/Buffer/History.antt =====
-- A builder under any sequence of calls: what it holds, and what `finalize` makes of it.
use fixed_str.Common.{
  ℕ, ◌-◌, ◌<◌, ◌≡◌, refl, length, take, arith, [], ◌∷◌, true, ◌^◌, List, ltb, if◌then◌else◌,
}
use native.Mathlib.Decide.{dec_lt}
use fixed_str.Error.{ok, panic}
use fixed_str.Utf8.{Bytes, IsUtf8, encode_utf8, is_scalar}
use fixed_str.Utf8.Run.{IsUtf8-append}
use fixed_str.Utf8.Encode.{encode_utf8-IsUtf8}
use fixed_str.Slice.{length-zeros}
use fixed_str.Helpers.{panic_on_zero}
use fixed_str.Helpers.Copy.{pad}
use fixed_str.EffectiveBytes.{effective_bytes}
use fixed_str.EffectiveBytes.Content.{effective_bytes-IsUtf8}
use fixed_str.Core.Construct.{IsStr}
use fixed_str.Buffer.{
  FixedStrBuf, default, new, try_push_str, try_push_char, push_str_lossy, clear, truncate, finalize,
}
use fixed_str.Buffer.View.{IsBuf, text, text-appended, appended-IsBuf}
use fixed_str.Buffer.Push.{
  try_push_str_fits, try_push_str_full, push_str_lossy_fits, push_str_lossy-IsCut,
}
use fixed_str.Buffer.Finish.{finalize_lem}

-- A call on `&mut self`.
pub data Change : Type 0 where
  pushing pushing_lossy : Bytes → Change
  pushing_char : ℕ → Change
  clearing : Change
  cutting : ℕ → Change

-- The state that a call leaves, however it ends.
unfoldable pub apply : {N : ℕ} → FixedStrBuf N → Change → FixedStrBuf N
apply b (pushing s) = (try_push_str b s).0
apply b (pushing_lossy s) = (push_str_lossy b s).0
apply b (pushing_char c) = (try_push_char b c).0
apply b clearing = clear b
apply b (cutting new_len) = (truncate b new_len).0

unfoldable pub apply_all : {N : ℕ} → FixedStrBuf N → List Change → FixedStrBuf N
unfolding apply
apply_all b [] = b
apply_all b (c ∷ cs) = apply_all (apply b c) cs

-- The call is no `truncate`, which can cut a character, and its argument is a string or a character.
abbrev pub IsTyped : Change → Type 0
IsTyped (pushing s) = IsStr s
IsTyped (pushing_lossy s) = IsStr s
IsTyped (pushing_char c) = is_scalar c ≡ true
IsTyped clearing = Unit
IsTyped (cutting new_len) = ⊥

abbrev pub AllTyped : List Change → Type 0
AllTyped [] = Unit
AllTyped (c ∷ cs) = IsTyped c × AllTyped cs

pub record IsGood {N : ℕ} (b : FixedStrBuf N) : Type 0 where
  pub buf : IsBuf b
  pub utf8 : IsUtf8 (text b)

push-IsGood :
    {N : ℕ} (b : FixedStrBuf N) (s : Bytes) → IsUtf8 s → IsGood b → IsGood (try_push_str b s).0
push-IsGood {N} b s valid g =
    let e = effective_bytes s in
    elim (dec_lt (N - b.len) (length e)) [
      | yes big ↦ rw (try_push_str_full b g.buf s big) g
      | no fits ↦ rw (try_push_str_fits b g.buf s (omega arith)) (record {
        buf = appended-IsBuf b g.buf e (omega arith);
        utf8 =
            rw (text-appended b g.buf e)
              (IsUtf8-append (text b) e g.utf8 (effective_bytes-IsUtf8 s valid));
      })
    ]

push_lossy-IsGood :
    {N : ℕ} (b : FixedStrBuf N) (s : Bytes) → IsStr s → IsGood b → IsGood (push_str_lossy b s).0
push_lossy-IsGood {N} b s str g = elim (dec_lt (N - b.len) (length s)) [
  | yes big ↦
      let (n, cut, t, r, w) = push_str_lossy-IsCut b g.buf s str.small big in
      record { buf = w; utf8 = rw t (IsUtf8-append (text b) (take n s) g.utf8 cut.valid) }
  | no fits ↦
      let (t, r, w) = push_str_lossy_fits b g.buf s (omega arith) in
      record { buf = w; utf8 = rw t (IsUtf8-append (text b) s g.utf8 str.utf8) }
]

apply-IsGood : {N : ℕ} (b : FixedStrBuf N) (c : Change) → IsTyped c → IsGood b → IsGood (apply b c)
unfolding apply try_push_char clear
apply-IsGood b (pushing s) str g = push-IsGood b s str.utf8 g
apply-IsGood b (pushing_lossy s) str g = push_lossy-IsGood b s str g
apply-IsGood b (pushing_char c) scalar g =
    push-IsGood b (encode_utf8 c) (encode_utf8-IsUtf8 c scalar) g
apply-IsGood {N} b clearing typed g = record {
  buf = record { size = length-zeros N; room = omega arith; small = g.buf.small };
  utf8 = refl;
}
apply-IsGood b (cutting new_len) typed g = absurd typed

-- `new` makes an empty builder, or panics at the capacity 0.
pub new_lem : (N : ℕ) → new N ≡ (if ltb 0 N then ok (default N) else panic)
unfolding new default panic_on_zero
new_lem N = ground arith

default-IsGood : (N : ℕ) → N < 2 ^ 63 → IsGood (default N)
unfolding default
default-IsGood N small = record {
  buf = record { size = length-zeros N; room = omega arith; small = small };
  utf8 = refl;
}

apply_all-IsGood :
    {N : ℕ} (b : FixedStrBuf N) (cs : List Change)
    → AllTyped cs
    → IsGood b
    → IsGood (apply_all b cs)
unfolding apply_all
apply_all-IsGood b [] typed g = g
apply_all-IsGood b (c ∷ cs) (t, ts) g = apply_all-IsGood (apply b c) cs ts (apply-IsGood b c t g)

-- After any sequence of pushes of strings and characters, lossy or not, and of `clear`, on an
-- empty builder with a capacity from 1 to 2^63 - 1, the text is valid UTF-8 and `finalize` returns
-- it up to its first null, padded with nulls.
pub finalize-apply_all :
    (N : ℕ) (cs : List Change)
    → 0 < N
    → N < 2 ^ 63
    → AllTyped cs
    → IsUtf8 (text (apply_all (default N) cs))
      × (finalize (apply_all (default N) cs)
          ≡ ok (record { bytes = pad N (effective_bytes (text (apply_all (default N) cs))) }))
finalize-apply_all N cs pos small typed =
    let b = apply_all (default N) cs in
    let g = apply_all-IsGood (default N) cs typed (default-IsGood N small) in
    (g.utf8, finalize_lem b g.buf pos (effective_bytes-IsUtf8 (text b) g.utf8))
