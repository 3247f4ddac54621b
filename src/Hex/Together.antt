-- ===== src/Hex/Together.antt =====
-- The loops of `dump_as_hex` and `fast_format_hex` of src/string_helpers.rs side by side.
use fixed_str.Common.{
  ℕ, ◌+◌, ◌-◌, ◌<◌, ◌≡◌, refl, Bool, true, false, ◌&&◌, Option, [], ◌∷◌, ◌++◌, ltb, ◌==◌,
  if◌then◌else◌, inl, inr, All, Bool-cases, arith, ap,
}
use fixed_str.Error.{ok}
use fixed_str.Utf8.{Bytes}
use fixed_str.Slice.{zeros}
use fixed_str.Hex.{hex_pair, dump_loop, at_limit}
use fixed_str.Hex.Spec.{hex_pair_lem}
use fixed_str.Hex.Dump.{dump_loop-cons, dump_loop_stop}
use fixed_str.Hex.Turn.{writer, sep_of}

-- Induction on the turns: what holds at the end of the bytes and at the limit of lines, and is kept
-- by a turn, holds of what `dump_loop` hands over.
module _ (group : ℕ) (m : Option ℕ) (P : (i c l : ℕ) (bytes out : Bytes) → Type 0)
    (done : (i c l : ℕ) → P i c l [] [])
    (stop : (i c l b : ℕ) (bytes : Bytes)
      → ltb 0 i && (c == group) ≡ true
      → at_limit m l ≡ true
      → P i c l (b ∷ bytes) [])
    (turn : (i c l b : ℕ) (bytes out : Bytes) (full : Bool) (p : ℕ × ℕ)
      → ltb 0 i && (c == group) ≡ full
      → full && at_limit m l ≡ false
      → hex_pair b ≡ ok p
      → P (i + 1) ((if full then 0 else c) + 1) (if full then l + 1 else l) bytes out
      → P i c l (b ∷ bytes) (sep_of (ltb 0 i) full ++ p.0 ∷ p.1 ∷ out)) where
  turn_and_dump :
      (i c l b : ℕ) (bytes out : Bytes) (full : Bool)
      → b < 256
      → ltb 0 i && (c == group) ≡ full
      → full && at_limit m l ≡ false
      → dump_loop group m (i + 1) ((if full then 0 else c) + 1) (if full then l + 1 else l) bytes
        ≡ ok out
      → P (i + 1) ((if full then 0 else c) + 1) (if full then l + 1 else l) bytes out
      → (out' : Bytes) × (dump_loop group m i c l (b ∷ bytes) ≡ ok out') × P i c l (b ∷ bytes) out'
  turn_and_dump i c l b bytes out full hb ef el ed h =
      let ep = hex_pair_lem b hb in
      (
        _,
        dump_loop-cons group m i c l b bytes full _ out ef el ep ed,
        turn i c l b bytes out full _ ef el ep h,
      )

  pub dump_loop_turns :
      (i c l : ℕ) (bytes : Bytes)
      → All (λ b. b < 256) bytes
      → (out : Bytes) × (dump_loop group m i c l bytes ≡ ok out) × P i c l bytes out
  unfolding dump_loop
  dump_loop_turns i c l [] hb = ([], refl, done i c l)
  dump_loop_turns i c l (b ∷ bytes) (hb, hbs) = elim (Bool-cases (ltb 0 i && (c == group))) [
    | inr ef ↦
        let (out, ed, h) = dump_loop_turns (i + 1) (c + 1) l bytes hbs in
        turn_and_dump i c l b bytes out false hb ef refl ed h
    | inl ef ↦ elim (Bool-cases (at_limit m l)) [
      | inl el ↦ ([], dump_loop_stop group m i c l b bytes ef el, stop i c l b bytes ef el)
      | inr el ↦
          let (out, ed, h) = dump_loop_turns (i + 1) 1 (l + 1) bytes hbs in
          turn_and_dump i c l b bytes out true hb ef el ed h
    ]
  ]

-- The variables of `fast_format_hex` before its loop.
pub first_writer :
    (N : ℕ)
    → writer N [] 0 1
      ≡ record { buffer = zeros N; pos = 0; count_in_line = 0; line_count = 1; truncated = false }
first_writer N =
    let all : N - 0 ≡ N = omega arith in
    ap
      (λ k. record {
        buffer = zeros k;
        pos = 0;
        count_in_line = 0;
        line_count = 1;
        truncated = false;
      })
      all
