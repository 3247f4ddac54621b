-- ===== src/Hex/Dump.antt =====
-- `dump_as_hex` of src/string_helpers.rs.
use native.Mathlib.Nat.{
  mul-add-mod_self_right, mod-eq_of_lt, mul-mod_left, mul-le-mul_right, mul_comm,
}
use fixed_str.Common.{
  ℕ, suc, ◌+◌, ◌-◌, ◌*◌, ◌%◌, ◌≤◌, ◌<◌, ◌≡◌, refl, Bool, true, false, ◌&&◌, Option, none, some, [],
  ◌∷◌, ◌++◌, ltb, ◌==◌, if◌then◌else◌, lt→ltb, take-nil, arith, ◌⊎◌, inl, inr, ◌∙◌, All, Bool-cases,
}
use native.Mathlib.Decide.{dec_lt}
use fixed_str.Error.{ok, ◌>>=◌}
use fixed_str.Utf8.{Bytes}
use fixed_str.Hex.{hex_pair, dump_loop, dump_as_hex, at_limit}
use fixed_str.Hex.Spec.{separator, hex_text, lines, shown, hex_pair_lem}

-- The line with the index `q` is one of those that the limit allows.
abbrev IsAllowed : Option ℕ → ℕ → Type 0
IsAllowed none q = Unit
IsAllowed (some max) q = q < lines max

-- The remainder of an index by the length of a line.
full_mod : (group q i : ℕ) → i ≡ q * group + group → i % group ≡ 0
full_mod group q i e =
    let e' : i ≡ suc q * group = omega arith in rw (e', mul-mod_left (suc q) group)

part_mod : (group q c i : ℕ) → i ≡ q * group + c → c < group → i % group ≡ c
part_mod group q c i e h = rw (e, mul-add-mod_self_right q group c, mod-eq_of_lt h)

at_last : (group q L i : ℕ) → i ≡ q * group + group → L ≡ q + 1 → i ≡ group * L
at_last group q L i e h =
    let h' : L ≡ suc q = omega arith in rw (e, h', mul_comm group (suc q)) (omega arith)

below_last : (group q c L i : ℕ) → i ≡ q * group + c → c < group → q < L → i < group * L
below_last group q c L i e h lt =
    let t : suc q * group ≤ L * group = mul-le-mul_right group (omega arith) in
    rw (mul_comm group L) (omega (arith, t))

IsAllowed-next : (m : Option ℕ) (q l : ℕ) → at_limit m l ≡ false → l ≡ q + 1 → IsAllowed m (q + 1)
unfolding at_limit
IsAllowed-next none q l h e = tt
IsAllowed-next (some max) q l h e = ground arith

shown-nil : (group : ℕ) (m : Option ℕ) (i : ℕ) → shown group m i [] ≡ []
shown-nil group none i = refl
shown-nil group (some max) i = take-nil (group * lines max - i)

-- Past the last line that the limit allows nothing is shown.
shown_end :
    (group : ℕ) (m : Option ℕ) (q i l : ℕ) (bytes : Bytes)
    → i ≡ q * group + group
    → l ≡ q + 1
    → IsAllowed m q
    → at_limit m l ≡ true
    → shown group m i bytes ≡ []
unfolding at_limit
shown_end group none q i l bytes e el ha h = absurd cc
shown_end group (some max) q i l bytes e el ha h =
    let t : lines max ≡ q + 1 = ground arith in
    let t' : group * lines max - i ≡ 0 = omega (arith, at_last group q (lines max) i e t) in rw t'

-- A byte of a line that the limit allows is shown.
shown-cons :
    (group : ℕ) (m : Option ℕ) (q c i b : ℕ) (bytes : Bytes)
    → i ≡ q * group + c
    → c < group
    → IsAllowed m q
    → shown group m i (b ∷ bytes) ≡ b ∷ shown group m (i + 1) bytes
shown-cons group none q c i b bytes e h ha = refl
shown-cons group (some max) q c i b bytes e h ha =
    let t = below_last group q c (lines max) i e h ha in
    let t' : group * lines max - i ≡ suc (group * lines max - (i + 1)) = omega (arith, t) in rw t'

pub separator_full :
    (group q i : ℕ) → i ≡ q * group + group → 0 < i → separator group i ≡ b'\n' ∷ []
separator_full group q i e h = ground (arith, full_mod group q i e)

pub separator_part :
    (group q c i : ℕ)
    → i ≡ q * group + c
    → c < group
    → (i ≡ 0) ⊎ (0 < c)
    → separator group i ≡ (if ltb 0 i then b' ' ∷ [] else [])
separator_part group q c i e h hi = ground (arith, part_mod group q c i e h)

-- One turn of the loop that writes its byte, with the separator `sep`.
pub dump_loop-cons :
    (group : ℕ) (m : Option ℕ) (i c l b : ℕ) (bytes : Bytes) (full : Bool) (p : ℕ × ℕ) (out : Bytes)
    → ltb 0 i && (c == group) ≡ full
    → full && at_limit m l ≡ false
    → hex_pair b ≡ ok p
    → dump_loop group m (i + 1) ((if full then 0 else c) + 1) (if full then l + 1 else l) bytes
      ≡ ok out
    → dump_loop group m i c l (b ∷ bytes)
      ≡ ok ((if ltb 0 i then (if full then b'\n' else b' ') ∷ [] else []) ++ p.0 ∷ p.1 ∷ out)
unfolding dump_loop
dump_loop-cons group m i c l b bytes full p out ef el ep er =
    rw (ef, el, ep, ◌>>=◌) (rw (er, ◌>>=◌))

pub dump_loop_stop :
    (group : ℕ) (m : Option ℕ) (i c l b : ℕ) (bytes : Bytes)
    → ltb 0 i && (c == group) ≡ true
    → at_limit m l ≡ true
    → dump_loop group m i c l (b ∷ bytes) ≡ ok []
unfolding dump_loop
dump_loop_stop group m i c l b bytes ef el = rw (ef, el)

pub line_start : (q group i : ℕ) → i ≡ q * group + group → i ≡ (q + 1) * group + 0
line_start q group i e =
    let t : (q + 1) * group ≡ suc q * group = let t' : q + 1 ≡ suc q = omega arith in rw t' in
    omega (arith, t)

next_line : (q group i : ℕ) → i ≡ q * group + group → i + 1 ≡ (q + 1) * group + 1
next_line q group i e = omega (arith, line_start q group i e)

first-IsAllowed : (m : Option ℕ) → IsAllowed m 0
first-IsAllowed none = tt
first-IsAllowed (some max) = ground arith

-- The loop from an index `i` on, in the line `q` behind `c` bytes of it.
dump_loop_lem :
    (group : ℕ) (m : Option ℕ) (q i c l : ℕ) (bytes : Bytes)
    → i ≡ q * group + c
    → l ≡ q + 1
    → c ≤ group
    → 0 < group
    → (i ≡ 0) ⊎ (0 < c)
    → IsAllowed m q
    → All (λ b. b < 256) bytes
    → dump_loop group m i c l bytes ≡ ok (hex_text group i (shown group m i bytes))
unfolding dump_loop
dump_loop_lem group m q i c l [] e el hc hg hi ha hb = rw (shown-nil group m i)
dump_loop_lem group m q i c l (b ∷ bytes) e el hc hg hi ha (hb, hbs) = elim (dec_lt c group) [
  | yes lt ↦
      let ef : ltb 0 i && (c == group) ≡ false = ground arith in
      let er =
        dump_loop_lem group m q (i + 1) (c + 1) l bytes (omega arith) el (omega arith) hg
          (inr (omega arith)) ha hbs in
      let s = shown-cons group m q c i b bytes e lt ha in
      dump_loop-cons group m i c l b bytes false _ _ ef refl (hex_pair_lem b hb) er
      ∙ rw (s, separator_part group q c i e lt hi)
  | no ge ↦
      let e' : i ≡ q * group + group = omega arith in
      let hi' : 0 < i = omega arith in
      let ef : ltb 0 i && (c == group) ≡ true = ground arith in
      elim (Bool-cases (at_limit m l)) [
        | inl el' ↦
            dump_loop_stop group m i c l b bytes ef el'
            ∙ rw (shown_end group m q i l (b ∷ bytes) e' el ha el')
        | inr el' ↦
            let er =
              dump_loop_lem group m (q + 1) (i + 1) 1 (l + 1) bytes (next_line q group i e')
                (omega arith) hg hg (inr (omega arith)) (IsAllowed-next m q l el' el) hbs in
            let s =
              shown-cons group m (q + 1) 0 i b bytes (line_start q group i e') hg
                (IsAllowed-next m q l el' el) in
            dump_loop-cons group m i c l b bytes true _ _ ef el' (hex_pair_lem b hb) er
            ∙ rw (s, separator_full group q i e' hi', lt→ltb 0 i hi')
      ]
]

pub dump_loop_text :
    (bytes : Bytes) (group : ℕ) (m : Option ℕ)
    → 0 < group
    → All (λ b. b < 256) bytes
    → dump_loop group m 0 0 1 bytes ≡ ok (hex_text group 0 (shown group m 0 bytes))
dump_loop_text bytes group m hg hb =
    dump_loop_lem group m 0 0 0 1 bytes (omega arith) (omega arith) (omega arith) hg (inl refl)
      (first-IsAllowed m) hb

-- With a group above 0 and bytes below 256, `dump_as_hex` hands over the text of the bytes that
-- the limit of lines shows: two digits for each byte, a newline before each group but the first, a
-- space before any other byte but the first.
pub dump_as_hex_lem :
    (bytes : Bytes) (group : ℕ) (m : Option ℕ)
    → 0 < group
    → All (λ b. b < 256) bytes
    → dump_as_hex bytes group m ≡ ok (hex_text group 0 (shown group m 0 bytes))
unfolding dump_as_hex
dump_as_hex_lem bytes group m hg hb = rw (lt→ltb 0 group hg) (dump_loop_text bytes group m hg hb)
