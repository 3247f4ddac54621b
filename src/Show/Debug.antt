-- ===== src/Show/Debug.antt =====
-- `Debug` of both types, of src/fs_impl.rs and src/fs_buffer.rs, and decimal digits.
use fixed_str.Common.{
  ℕ, suc, ◌≤◌, ◌<◌, ◌≡◌, refl, Bool-cases, inl, inr, some, ◌++◌, if◌then◌else◌, All, All-take, take,
  length, length-take, arith, ◌∙◌,
}
use fixed_str.Error.{Outcome, ok, err, panic, ◌>>=◌}
use fixed_str.Utf8.{Bytes, IsUtf8, is_utf8}
use fixed_str.EffectiveBytes.Content.{effective_bytes-pad, effective_bytes_of_NoNull}
use fixed_str.Core.{FixedStr, content, is_valid}
use fixed_str.Core.Access.{IsFixedStr, as_str_valid, try_as_str-as_str, is_valid_iff}
use fixed_str.Helpers.Copy.{pad, length-pad}
use fixed_str.Hex.{codes, fast_format_hex}
use fixed_str.Hex.Spec.{
  hex_text, length-hex_text, hex_text-IsPrintable, IsPrintable-NoNull, IsPrintable-IsUtf8,
}
use fixed_str.Hex.Format.{fast_format_hex_lem}
use fixed_str.Slice.{slice_to_lem}
use fixed_str.Buffer.{FixedStrBuf}
use fixed_str.Buffer.View.{IsBuf, text}
use fixed_str.Show.{debug, buf_debug, buf_display, decimal}

debug_valid :
    {N : ℕ} (fuel : ℕ) (quote : Bytes → Bytes) (fs : FixedStr N)
    → length fs.bytes ≡ N
    → IsUtf8 (content fs)
    → debug (suc fuel) quote fs ≡ ok (quote (content fs))
unfolding debug
debug_valid fuel quote fs size valid =
    rw (debug, try_as_str-as_str fs size, (is_valid_iff fs).1 valid, as_str_valid fs size valid)
      refl

-- The dump of any bytes fits, and is shown by the inner call.
debug_dump :
    (fuel : ℕ) (quote : Bytes → Bytes) (bytes : Bytes)
    → All (λ b. b < 256) bytes
    → (fast_format_hex 384 bytes 16 (some 8) >>= debug (suc fuel) quote)
      ≡ ok (quote (hex_text 16 0 (take 128 bytes)))
debug_dump fuel quote bytes hb =
    let h = All-take (λ b. b < 256) 128 bytes hb in
    let t = hex_text 16 0 (take 128 bytes) in
    let fits : length t ≤ 384 =
      omega (arith, length-hex_text 16 0 (take 128 bytes), length-take 128 bytes) in
    let printable = hex_text-IsPrintable 16 0 (take 128 bytes) h in
    let dump =
      fast_format_hex_lem 384 bytes 16 (some 8) (omega arith) (omega arith) (omega arith) hb fits in
    let gs : FixedStr 384 = record { bytes = pad 384 t } in
    let same : content gs ≡ t =
      effective_bytes-pad 384 t ∙ effective_bytes_of_NoNull t (IsPrintable-NoNull t printable) in
    let inner =
      debug_valid fuel quote gs (length-pad 384 t fits)
        (rw same (IsPrintable-IsUtf8 t printable)) in
    rw (dump, ◌>>=◌) (rw (inner, same) refl)

after_bind :
    {A B C : Type 0} (r : Outcome A) (f : A → Outcome B) (g : B → Outcome C) (c : B)
    → (r >>= f) ≡ ok c
    → (r >>= λ a. f a >>= g) ≡ g c
after_bind (ok a) f g c e = rw e refl
after_bind (err x) f g c e = absurd cc
after_bind panic f g c e = absurd cc

-- What `Debug` should write.
abbrev pub debug_text : {N : ℕ} → (Bytes → Bytes) → FixedStr N → Bytes
debug_text quote fs =
    if is_valid fs
    then quote (content fs)
    else codes "<invalid UTF-8>\n" ++ quote (hex_text 16 0 (take 128 fs.bytes))

abbrev pub buf_debug_text : {N : ℕ} → (Bytes → Bytes) → FixedStrBuf N → Bytes
buf_debug_text {N} quote b =
    codes "FixedStrBuf<"
    ++ (decimal N
        ++ (if is_utf8 (text b)
            then codes ">(" ++ (quote (text b) ++ codes ")")
            else codes ">(<invalid UTF-8>) " ++ quote (hex_text 16 0 (take 128 b.buffer))))

debug_lem :
    {N : ℕ} (fuel : ℕ) (quote : Bytes → Bytes) (fs : FixedStr N)
    → IsFixedStr fs
    → All (λ b. b < 256) fs.bytes
    → debug (suc (suc fuel)) quote fs ≡ ok (debug_text quote fs)
unfolding debug
debug_lem fuel quote fs wf hb = elim (Bool-cases (is_valid fs)) [
  | inl good ↦ rw (debug_valid (suc fuel) quote fs wf.size ((is_valid_iff fs).0 good), good) refl
  | inr bad ↦
      rw (debug, try_as_str-as_str fs wf.size, bad)
        (after_bind (fast_format_hex 384 fs.bytes 16 (some 8)) (debug (suc fuel) quote) _ _
          (debug_dump fuel quote fs.bytes hb))
]

buf_debug_lem :
    {N : ℕ} (fuel : ℕ) (quote : Bytes → Bytes) (b : FixedStrBuf N)
    → IsBuf b
    → All (λ b. b < 256) b.buffer
    → (buf_debug (suc fuel) quote b ≡ ok (buf_debug_text quote b))
      × (buf_display b ≡ ok (if is_utf8 (text b) then text b else codes "<invalid UTF-8>"))
unfolding buf_debug buf_display
buf_debug_lem fuel quote b wf hb =
    let cut = slice_to_lem b.len b.buffer (omega (arith, wf.size, wf.room)) in
    (
      elim (Bool-cases (is_utf8 (text b))) [
        | inl good ↦ rw (cut, ◌>>=◌, good) refl
        | inr bad ↦
            rw (cut, ◌>>=◌, bad)
              (after_bind (fast_format_hex 384 b.buffer 16 (some 8)) (debug (suc fuel) quote) _ _
                (debug_dump fuel quote b.buffer hb))
      ],
      rw (cut, ◌>>=◌) refl,
    )

-- On a well-formed value and a well-formed builder with bytes below 256, and for every way of
-- quoting, `Debug` ends with at most one call of itself. It writes the quoted string of a valid
-- one (for the builder between its type, its capacity and a bracket), and otherwise a note and the
-- quoted dump of the first 128 bytes in lines of 16, which fits into the 384 bytes set aside for
-- it. `Display` of the builder writes the text or a note.
pub debug-debug_text :
    {N : ℕ} (fuel : ℕ) (quote : Bytes → Bytes) (fs : FixedStr N) (b : FixedStrBuf N)
    → IsFixedStr fs
    → All (λ b. b < 256) fs.bytes
    → IsBuf b
    → All (λ b. b < 256) b.buffer
    → (debug (suc (suc fuel)) quote fs ≡ ok (debug_text quote fs))
      × (buf_debug (suc fuel) quote b ≡ ok (buf_debug_text quote b))
      × (buf_display b ≡ ok (if is_utf8 (text b) then text b else codes "<invalid UTF-8>"))
debug-debug_text fuel quote fs b wf hb wb hbb =
    let (written, shown) = buf_debug_lem fuel quote b wb hbb in
    (debug_lem fuel quote fs wf hb, written, shown)
