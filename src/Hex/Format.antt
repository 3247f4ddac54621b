-- ===== src/Hex/Format.antt =====
-- `fast_format_hex` of src/string_helpers.rs, where the text fits into the array.
use fixed_str.Common.{
  ℕ, ◌+◌, ◌-◌, ◌≤◌, ◌<◌, ◌≡◌, refl, Bool, false, ◌&&◌, Option, [], ◌∷◌, ◌++◌, ltb, ◌==◌,
  if◌then◌else◌, lt→ltb, arith, sym, All, length, take-append, length-append, append-nil, subst,
  ◌^◌,
}
use fixed_str.Error.{ok, ◌>>=◌}
use fixed_str.Utf8.{Bytes}
use fixed_str.Slice.{fill_zero, fill_zero_lem, zeros}
use fixed_str.Helpers.Copy.{pad, length-pad}
use fixed_str.Hex.{hex_pair, at_limit, format_loop, mark_truncated, fast_format_hex}
use fixed_str.Hex.Spec.{
  hex_text, shown, IsPrintable, hex_text-IsPrintable, shown-All, IsPrintable-NoNull,
  IsPrintable-IsUtf8,
}
use fixed_str.Buffer.{FixedStrBuf, finalize}
use fixed_str.Buffer.View.{text}
use fixed_str.Buffer.Finish.{finalize_lem}
use fixed_str.EffectiveBytes.Content.{effective_bytes_of_NoNull}
use fixed_str.Hex.Dump.{dump_loop_text}
use fixed_str.Hex.Together.{dump_loop_turns, first_writer}
use fixed_str.Hex.Turn.{writer, Writes, sep_of, format_loop-cons, format_loop_stop, separate_step}

-- Where what `dump_loop` hands over fits, `format_loop` writes the same.
abbrev Fits : (N group : ℕ) (m : Option ℕ) (i c l : ℕ) (bytes out : Bytes) → Type 0
Fits N group m i c l bytes out =
    (t : Bytes) → length t + length out ≤ N → Writes N group m i bytes (writer N t c l) (t ++ out)

Fits-done : (N group : ℕ) (m : Option ℕ) (i c l : ℕ) → Fits N group m i c l [] []
unfolding format_loop
Fits-done N group m i c l t h = (c, l, rw (append-nil t) refl)

Fits-turn :
    (N group : ℕ) (m : Option ℕ) (i c l b : ℕ) (bytes out : Bytes) (full : Bool) (p : ℕ × ℕ)
    → ltb 0 i && (c == group) ≡ full
    → full && at_limit m l ≡ false
    → hex_pair b ≡ ok p
    → Fits N group m (i + 1) ((if full then 0 else c) + 1) (if full then l + 1 else l) bytes out
    → Fits N group m i c l (b ∷ bytes) (sep_of (ltb 0 i) full ++ p.0 ∷ p.1 ∷ out)
Fits-turn N group m i c l b bytes out full p ef el ep later t h =
    let sep = sep_of (ltb 0 i) full in
    let n = length-append sep (p.0 ∷ p.1 ∷ out) in
    let n' = length-append t sep in
    let n'' = length-append (t ++ sep) (p.0 ∷ p.1 ∷ []) in
    format_loop-cons N group m i b c l _ _ bytes t sep out p
      (separate_step N group m t c l (ltb 0 i) full ef el (omega (arith, n))) ep
      (omega (arith, n, n')) (later ((t ++ sep) ++ p.0 ∷ p.1 ∷ []) (omega (arith, n, n', n'')))

format_loop_lem :
    (N group : ℕ) (m : Option ℕ) (bytes : Bytes)
    → 0 < group
    → All (λ b. b < 256) bytes
    → length (hex_text group 0 (shown group m 0 bytes)) ≤ N
    → Writes N group m 0 bytes
        (record { buffer = zeros N; pos = 0; count_in_line = 0; line_count = 1; truncated = false })
        (hex_text group 0 (shown group m 0 bytes))
format_loop_lem N group m bytes hg hb h =
    let (out, ed, fits) =
      dump_loop_turns group m (Fits N group m) (Fits-done N group m)
        (λ i c l b bytes ef el t room. format_loop_stop N group m i b c l bytes t ef el)
        (Fits-turn N group m) 0 0 1 bytes hb in
    let e : out ≡ hex_text group 0 (shown group m 0 bytes) =
      let d = dump_loop_text bytes group m hg hb in cc in
    let room : length out ≤ N = rw e h in
    subst (λ w. Writes N group m 0 bytes w (hex_text group 0 (shown group m 0 bytes)))
      (first_writer N)
      (subst (Writes N group m 0 bytes (writer N [] 0 1)) e (fits [] (omega (arith, room))))

-- The last two steps, on a text of printable characters.
pub finalize_printable :
    (N : ℕ) (t : Bytes)
    → 0 < N
    → N < 2 ^ 63
    → length t ≤ N
    → All IsPrintable t
    → (fill_zero (pad N t) (length t) N >>= λ buffer.
        finalize {N = N} (record { buffer = buffer; len = length t }))
      ≡ ok (record { bytes = pad N t })
finalize_printable N t pos small h printable =
    let b : FixedStrBuf N = record { buffer = pad N t; len = length t } in
    let size = length-pad N t h in
    let same : text b ≡ t = take-append t (zeros (N - length t)) (length t) refl in
    let plain = effective_bytes_of_NoNull t (IsPrintable-NoNull t printable) in
    let fin =
      finalize_lem b (record { size = size; room = h; small = small }) pos
        (rw (same, plain) (IsPrintable-IsUtf8 t printable)) in
    rw (fill_zero_lem (pad N t) (length t) N h (sym size), ◌>>=◌, same, fin) (rw (same, plain) refl)

pub fast_format_hex_lem :
    (N : ℕ) (bytes : Bytes) (group : ℕ) (m : Option ℕ)
    → 0 < N
    → N < 2 ^ 63
    → 0 < group
    → All (λ b. b < 256) bytes
    → length (hex_text group 0 (shown group m 0 bytes)) ≤ N
    → fast_format_hex N bytes group m
      ≡ ok (record { bytes = pad N (hex_text group 0 (shown group m 0 bytes)) })
unfolding fast_format_hex mark_truncated
fast_format_hex_lem N bytes group m pos small hg hb h =
    let t = hex_text group 0 (shown group m 0 bytes) in
    let (c, l, e) = format_loop_lem N group m bytes hg hb h in
    let printable =
      hex_text-IsPrintable group 0 (shown group m 0 bytes) (shown-All group m bytes hb) in
    rw (lt→ltb 0 group hg, e, ◌>>=◌) (finalize_printable N t pos small h printable)
