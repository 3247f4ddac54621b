-- ===== src/Hex/Short.antt =====
-- `fast_format_hex` of src/string_helpers.rs, where the text does not fit into the array.
use native.Mathlib.Decide.{dec_lt}
use fixed_str.Common.{
  ℕ, suc, ◌+◌, ◌≤◌, ◌<◌, ◌≡◌, refl, Bool, true, false, ◌&&◌, Option, [], ◌∷◌, ◌++◌, ltb, ◌==◌,
  if◌then◌else◌, lt→ltb, le→ltb, take, arith, inl, inr, ◌∙◌, All, Bool-cases, length, take-append,
  take-append_add, append_assoc, length-append, append-nil, subst,
}
use fixed_str.Error.{ok, ◌>>=◌}
use fixed_str.Utf8.{Bytes}
use fixed_str.Helpers.Copy.{pad}
use fixed_str.Hex.{Writer, hex_pair, at_limit, separate, put_digits, format_loop}
use fixed_str.Hex.Spec.{hex_text, shown}
use fixed_str.Slice.{zeros}
use fixed_str.Hex.Dump.{dump_loop_text}
use fixed_str.Hex.Together.{dump_loop_turns, first_writer}
use fixed_str.Hex.Turn.{writer, sep_of, separate_step, put_digits_lem}

-- The variables of the loop after a stop for want of room, when the text `t` has been written.
abbrev pub short : ℕ → Bytes → ℕ → ℕ → Writer
short N t c l = record {
  buffer = pad N t;
  pos = length t;
  count_in_line = c;
  line_count = l;
  truncated = true;
}

-- The loop writes `k` bytes of `out` behind `t`, and no more fit: fewer than two are left.
pub record Stops (N group : ℕ) (m : Option ℕ) (i : ℕ) (bytes : Bytes) (w : Writer) (t out : Bytes)
    : Type 0 where
  pub k : ℕ
  pub c : ℕ
  pub l : ℕ
  pub ends : format_loop N group m i bytes w ≡ ok (short N (t ++ take k out) c l)
  pub room : length t + k ≤ N
  pub full : N < length t + k + 2
  pub part : k ≤ length out

-- No room for the separator.
stop_separate :
    (N group : ℕ) (m : Option ℕ) (i b c l : ℕ) (bytes t : Bytes) (full : Bool)
    → 0 < i
    → (c == group) ≡ full
    → full && at_limit m l ≡ false
    → N ≤ length t
    → format_loop N group m i (b ∷ bytes) (writer N t c l) ≡ ok (short N t c l)
unfolding format_loop separate
stop_separate N group m i b c l bytes t true later ef el h =
    rw (lt→ltb 0 i later, ef, el, le→ltb (length t) N h, ◌>>=◌) refl
stop_separate N group m i b c l bytes t false later ef el h =
    rw (lt→ltb 0 i later, ef, le→ltb (length t) N h, ◌>>=◌) refl

module _ (N group : ℕ) (m : Option ℕ) (i b c l c' l' : ℕ) (bytes t t' : Bytes)
    (es : (if ltb 0 i then separate N group m (writer N t c l) else ok (writer N t c l, true))
      ≡ ok (writer N t' c' l', true)) where
  -- No room for the digits.
  stop_digits :
      N < length t' + 2
      → format_loop N group m i (b ∷ bytes) (writer N t c l) ≡ ok (short N t' c' l')
  unfolding format_loop put_digits
  stop_digits h = rw (es, ◌>>=◌, le→ltb (length t' + 1) N (omega arith)) refl

  -- Room for both.
  step_digits :
      (p : ℕ × ℕ)
      → hex_pair b ≡ ok p
      → length t' + 2 ≤ N
      → format_loop N group m i (b ∷ bytes) (writer N t c l)
        ≡ format_loop N group m (i + 1) bytes (writer N (t' ++ p.0 ∷ p.1 ∷ []) (c' + 1) l')
  unfolding format_loop
  step_digits p ep h = rw (es, ◌>>=◌, put_digits_lem N t' c' l' b p ep h) refl

-- What `dump_loop` hands over is cut short by `format_loop` where it does not fit.
abbrev IsCutShort : (N group : ℕ) (m : Option ℕ) (i c l : ℕ) (bytes out : Bytes) → Type 0
IsCutShort N group m i c l bytes out =
    (t : Bytes)
    → length t ≤ N
    → N < length t + length out
    → Stops N group m i bytes (writer N t c l) t out

module _ (N group : ℕ) (m : Option ℕ) (i c l b : ℕ) (bytes out : Bytes) (full : Bool) (p : ℕ × ℕ)
    (ef : ltb 0 i && (c == group) ≡ full) (el : full && at_limit m l ≡ false)
    (ep : hex_pair b ≡ ok p)
    (ag : IsCutShort N group m
      (i + 1)
      ((if full then 0 else c) + 1)
      (if full then l + 1 else l)
      bytes
      out) where
  sep : Bytes
  sep = sep_of (ltb 0 i) full

  digits : Bytes
  digits = p.0 ∷ p.1 ∷ []

  StopsHere : Bytes → Type 0
  StopsHere t = Stops N group m i (b ∷ bytes) (writer N t c l) t (sep ++ p.0 ∷ p.1 ∷ out)

  Stops-separator : (t : Bytes) → length t ≤ N → N < length t + length sep → StopsHere t
  unfolding sep StopsHere
  Stops-separator t room big = elim (Bool-cases (ltb 0 i)) [
    | inr first ↦
        let none_left : length (sep_of (ltb 0 i) full) ≡ 0 = rw first in
        absurd (omega (arith, none_left))
    | inl later ↦
        let one : length (sep_of (ltb 0 i) full) ≡ 1 = rw later in
        let ef' : (c == group) ≡ full = ground arith in
        let i' : 0 < i = ground arith in
        record {
          k = 0;
          c = c;
          l = l;
          ends =
              rw (append-nil t)
                (stop_separate N group m i b c l bytes t full i' ef' el (omega (arith, one)));
          room = omega arith;
          full = omega (arith, one);
          part = omega arith;
        }
  ]

  Stops-digits : (t : Bytes) → length t + length sep ≤ N → N < length (t ++ sep) + 2 → StopsHere t
  unfolding sep StopsHere
  Stops-digits t room big =
      let es = separate_step N group m t c l (ltb 0 i) full ef el room in
      let n = length-append t sep in
      record {
        k = length sep;
        c = if full then 0 else c;
        l = if full then l + 1 else l;
        ends =
            rw (take-append sep (p.0 ∷ p.1 ∷ out) (length sep) refl)
              (stop_digits N group m i b c l _ _ bytes t (t ++ sep) es big);
        room = omega arith;
        full = omega (arith, n);
        part = omega (arith, length-append sep (p.0 ∷ p.1 ∷ out));
      }

  Stops-later :
      (t : Bytes)
      → length t + length sep ≤ N
      → length (t ++ sep) + 2 ≤ N
      → N < length t + length (sep ++ p.0 ∷ p.1 ∷ out)
      → StopsHere t
  unfolding sep StopsHere
  Stops-later t room room' big =
      let es = separate_step N group m t c l (ltb 0 i) full ef el room in
      let n = length-append t sep in
      let n' = length-append (t ++ sep) (p.0 ∷ p.1 ∷ []) in
      let n'' = length-append sep (p.0 ∷ p.1 ∷ out) in
      let r = ag ((t ++ sep) ++ p.0 ∷ p.1 ∷ []) (omega (arith, n')) (omega (arith, n, n', n'')) in
      let two : length sep + r.k + 2 ≡ length sep + suc (suc r.k) = omega arith in
      record {
        k = length sep + r.k + 2;
        c = r.c;
        l = r.l;
        ends =
            rw
              (
                take-append_add sep (p.0 ∷ p.1 ∷ out) (length sep + r.k + 2) (suc (suc r.k)) two,
                ← append_assoc t sep (p.0 ∷ p.1 ∷ take r.k out),
                ← append_assoc (t ++ sep) (p.0 ∷ p.1 ∷ []) (take r.k out),
              )
              (step_digits N group m i b c l _ _ bytes t (t ++ sep) es p ep room' ∙ r.ends);
        room = omega (arith, n, n', r.room);
        full = omega (arith, n, n', r.full);
        part = omega (arith, n'', r.part);
      }

  IsCutShort-turn :
      IsCutShort N group m i c l (b ∷ bytes) (sep_of (ltb 0 i) full ++ p.0 ∷ p.1 ∷ out)
  unfolding sep StopsHere
  IsCutShort-turn t room big = elim (dec_lt N (length t + length (sep_of (ltb 0 i) full))) [
    | yes more ↦ Stops-separator t room more
    | no enough ↦ elim (dec_lt N (length (t ++ sep_of (ltb 0 i) full) + 2)) [
      | yes more ↦ Stops-digits t (omega arith) more
      | no enough' ↦ Stops-later t (omega arith) (omega arith) big
    ]
  ]

pub format_loop-Stops :
    (N group : ℕ) (m : Option ℕ) (bytes : Bytes)
    → 0 < group
    → All (λ b. b < 256) bytes
    → N < length (hex_text group 0 (shown group m 0 bytes))
    → Stops N group m 0 bytes
        (record { buffer = zeros N; pos = 0; count_in_line = 0; line_count = 1; truncated = false })
        []
        (hex_text group 0 (shown group m 0 bytes))
format_loop-Stops N group m bytes hg hb h =
    let t = hex_text group 0 (shown group m 0 bytes) in
    let (out, ed, stops) =
      dump_loop_turns group m (IsCutShort N group m) (λ i c l t room big. absurd (omega arith))
        (λ i c l b bytes ef el t room big. absurd (omega arith))
        (λ i c l b bytes out full p ef el ep later.
          IsCutShort-turn N group m i c l b bytes out full p ef el ep later)
        0 0 1 bytes hb in
    let e : out ≡ t = let d = dump_loop_text bytes group m hg hb in cc in
    let big : N < length out = rw e h in
    subst (λ w. Stops N group m 0 bytes w [] t) (first_writer N)
      (subst (Stops N group m 0 bytes (writer N [] 0 1) []) e
        (stops [] (omega arith) (omega (arith, big))))
