-- ===== src/Hex/Turn.antt =====
-- One turn of the loop of `fast_format_hex` of src/string_helpers.rs, where its bytes fit.
use fixed_str.Common.{
  ℕ, ◌+◌, ◌-◌, ◌≤◌, ◌<◌, ◌≡◌, refl, Bool, true, false, ◌&&◌, Option, [], ◌∷◌, ◌++◌, ltb, ◌==◌,
  if◌then◌else◌, lt→ltb, arith, length, set_split, take-append, drop-append_add, append_assoc,
  length-append, append-nil,
}
use fixed_str.Error.{ok, ◌>>=◌}
use fixed_str.Utf8.{Bytes}
use fixed_str.Slice.{write, write_lem, zeros, drop-zeros}
use fixed_str.Helpers.Copy.{pad, length-pad}
use fixed_str.Hex.{Writer, hex_pair, at_limit, separate, put_digits, format_loop}

-- The variables of the loop when the text `t` has been written.
abbrev pub writer : ℕ → Bytes → ℕ → ℕ → Writer
writer N t c l = record {
  buffer = pad N t;
  pos = length t;
  count_in_line = c;
  line_count = l;
  truncated = false;
}

write-pad :
    (N : ℕ) (t : Bytes) (i v : ℕ)
    → i ≡ length t
    → length t + 1 ≤ N
    → write (pad N t) i v ≡ ok (pad N (t ++ v ∷ []))
write-pad N t i v e h =
    let z = zeros (N - length t) in
    let inside : i < length (t ++ z) = omega (arith, length-pad N t (omega arith)) in
    let n = length-append t (v ∷ []) in
    rw
      (
        write_lem (t ++ z) i v inside,
        set_split i (i + 1) (t ++ z) v refl inside,
        take-append t z i e,
        drop-append_add t z (i + 1) 1 (omega arith),
        drop-zeros (N - length t) 1 (N - length (t ++ v ∷ [])) (omega (arith, n)),
        append_assoc t (v ∷ []) (zeros (N - length (t ++ v ∷ []))),
      )
      refl

separate_lem :
    (N group : ℕ) (m : Option ℕ) (t : Bytes) (c l : ℕ) (full : Bool)
    → (c == group) ≡ full
    → full && at_limit m l ≡ false
    → length t + 1 ≤ N
    → separate N group m (writer N t c l)
      ≡ ok (
        writer N
            (t ++ (if full then b'\n' else b' ') ∷ [])
            (if full then 0 else c)
            (if full then l + 1 else l),
        true,
      )
unfolding separate
separate_lem N group m t c l true e el h =
    rw
      (
        e,
        el,
        lt→ltb (length t) N (omega arith),
        write-pad N t (length t) b'\n' refl h,
        ◌>>=◌,
        length-append t (b'\n' ∷ []),
      )
      refl
separate_lem N group m t c l false e el h =
    rw
      (
        e,
        lt→ltb (length t) N (omega arith),
        write-pad N t (length t) b' ' refl h,
        ◌>>=◌,
        length-append t (b' ' ∷ []),
      )
      refl

pub put_digits_lem :
    (N : ℕ) (t : Bytes) (c l b : ℕ) (p : ℕ × ℕ)
    → hex_pair b ≡ ok p
    → length t + 2 ≤ N
    → put_digits N b (writer N t c l) ≡ ok (writer N (t ++ p.0 ∷ p.1 ∷ []) (c + 1) l, true)
unfolding put_digits
put_digits_lem N t c l b p e h =
    let n = length-append t (p.0 ∷ []) in
    rw
      (
        lt→ltb (length t + 1) N (omega arith),
        e,
        ◌>>=◌,
        write-pad N t (length t) p.0 refl (omega arith),
        write-pad N (t ++ p.0 ∷ []) (length t + 1) p.1 (omega (arith, n)) (omega (arith, n)),
        append_assoc t (p.0 ∷ []) (p.1 ∷ []),
        length-append t (p.0 ∷ p.1 ∷ []),
      )
      refl

-- The loop ends with the text `t`, and nothing has been cut off.
abbrev pub Writes :
    (N group : ℕ) (m : Option ℕ) (i : ℕ) (bytes : Bytes) (w : Writer) (t : Bytes) → Type 0
Writes N group m i bytes w t =
    (c : ℕ) × (l : ℕ) × (format_loop N group m i bytes w ≡ ok (writer N t c l))

-- One turn that writes the separator `sep` and the digits of its byte.
pub format_loop-cons :
    (N group : ℕ) (m : Option ℕ) (i b c l c' l' : ℕ) (bytes t sep out : Bytes) (p : ℕ × ℕ)
    → (if ltb 0 i then separate N group m (writer N t c l) else ok (writer N t c l, true))
      ≡ ok (writer N (t ++ sep) c' l', true)
    → hex_pair b ≡ ok p
    → length (t ++ sep) + 2 ≤ N
    → Writes N group m
        (i + 1)
        bytes
        (writer N ((t ++ sep) ++ p.0 ∷ p.1 ∷ []) (c' + 1) l')
        (((t ++ sep) ++ p.0 ∷ p.1 ∷ []) ++ out)
    → Writes N group m i (b ∷ bytes) (writer N t c l) (t ++ (sep ++ p.0 ∷ p.1 ∷ out))
unfolding format_loop
format_loop-cons N group m i b c l c' l' bytes t sep out p es ep room (c'', l'', e) = (
  c'',
  l'',
  rw
      (
        es,
        ◌>>=◌,
        put_digits_lem N (t ++ sep) c' l' b p ep room,
        ← append_assoc t sep (p.0 ∷ p.1 ∷ out),
        ← append_assoc (t ++ sep) (p.0 ∷ p.1 ∷ []) out,
      )
      e,
)

pub format_loop_stop :
    (N group : ℕ) (m : Option ℕ) (i b c l : ℕ) (bytes t : Bytes)
    → ltb 0 i && (c == group) ≡ true
    → at_limit m l ≡ true
    → Writes N group m i (b ∷ bytes) (writer N t c l) (t ++ [])
unfolding format_loop separate
format_loop_stop N group m i b c l bytes t ef el =
    let z : ltb 0 i ≡ true = ground arith in
    let f : (c == group) ≡ true = ground arith in (c, l, rw (z, f, el, ◌>>=◌, append-nil t) refl)

abbrev pub sep_of : (later full : Bool) → Bytes
sep_of later full = if later then (if full then b'\n' else b' ') ∷ [] else []

pub separate_step :
    (N group : ℕ) (m : Option ℕ) (t : Bytes) (c l : ℕ) (later full : Bool)
    → later && (c == group) ≡ full
    → full && at_limit m l ≡ false
    → length t + length (sep_of later full) ≤ N
    → (if later then separate N group m (writer N t c l) else ok (writer N t c l, true))
      ≡ ok (
        writer N (t ++ sep_of later full) (if full then 0 else c) (if full then l + 1 else l),
        true,
      )
separate_step N group m t c l true full ef el h = separate_lem N group m t c l full ef el h
separate_step N group m t c l false false ef el h = rw (append-nil t) refl
separate_step N group m t c l false true ef el h = absurd cc
