-- ===== src/Core/Modify.antt =====
-- The modifiers of src/fs_core.rs: `set`, `set_lossy`, `clear` and `truncate`.
use fixed_str.Common.{
  ◌⊎◌, inl, inr, Bool-cases, ℕ, ◌-◌, ◌≤◌, ◌<◌, ◌≡◌, refl, ltb, length, take, arith, ◌∙◌, ◌++◌, sym,
  [], length-take, length-append, leb, if◌then◌else◌, le→ltb, lt→leb, le→leb, take_all, lt→ltb,
}
use native.Mathlib.Decide.{dec_lt}
use fixed_str.Error.{ok, err, overflow}
use fixed_str.Utf8.{Bytes, IsUtf8}
use fixed_str.Utf8.{is_utf8}
use fixed_str.Utf8.Run.{is_utf8_iff, is_utf8-false}
use fixed_str.Slice.{zeros, length-zeros, fill_zero_lem, Returns→ok}
use fixed_str.Helpers.{find_first_null}
use fixed_str.Helpers.Null.{find_first_null-le, find_first_null-NoNull, find_first_null-zeros}
use fixed_str.Helpers.Search.{IsSlice}
use fixed_str.Helpers.Copy.{
  pad, IsTruncated, copy_into_buffer_exact, copy_into_buffer_overflow, copy_into_buffer-truncate,
  copy_into_buffer-truncate_valid,
}
use fixed_str.EffectiveBytes.{effective_bytes}
use fixed_str.EffectiveBytes.Content.{
  effective_bytes-take, effective_bytes-append_zeros, effective_bytes-IsUtf8,
  effective_bytes-NoNull, length-effective_bytes, take-effective_bytes,
}
use fixed_str.Core.{FixedStr, content, len, set, set_lossy, clear, truncate}
use fixed_str.Core.Access.{IsFixedStr}
use fixed_str.Core.Construct.{IsPrefixOf, truncated-IsPrefixOf}

module _ {N : ℕ} (fs : FixedStr N) (pos : 0 < N) where
  -- At a capacity above 0, `set` replaces the value by the input up to its first null, padded with
  -- nulls, if that part fits. Otherwise it leaves the value alone and reports the capacity and the
  -- length of that part.
  pub set_lem :
      (input : Bytes)
      → set fs input ≡ (
          if leb (find_first_null input) N
          then (record { bytes = pad N (effective_bytes input) }, ok tt)
          else (fs, err (overflow N (find_first_null input))))
  unfolding set
  set_lem input = elim (dec_lt N (find_first_null input)) [
    | yes big ↦
        let size = length-effective_bytes input in
        rw (lt→leb (find_first_null input) N big) (
          rw (copy_into_buffer_overflow N (effective_bytes input) pos (omega (arith, size)))
            (rw size refl))
    | no fits ↦ rw (le→leb (find_first_null input) N (omega arith)) (
        rw
          (copy_into_buffer_exact N (effective_bytes input) pos
            (omega (arith, length-effective_bytes input)))
          refl)
  ]

  pub set_lossy-IsPrefixOf :
      (input : Bytes)
      → IsSlice input
      → ((set_lossy fs input).1 ≡ ok tt) × IsPrefixOf (effective_bytes input) (set_lossy fs input).0
  unfolding set_lossy
  set_lossy-IsPrefixOf input small =
      let size = length-effective_bytes input in
      let src = effective_bytes input in
      let (buf, e, t) =
        Returns→ok _ (IsTruncated N src)
          (copy_into_buffer-truncate N src pos (omega (arith, size, find_first_null-le input))) in
      rw e (refl, truncated-IsPrefixOf N src buf t)

  pub set_lossy-set :
      (input : Bytes) → IsUtf8 input → find_first_null input ≤ N → set_lossy fs input ≡ set fs input
  unfolding set_lossy set
  set_lossy-set input valid fits =
      let size = length-effective_bytes input in
      let src = effective_bytes input in
      let whole = take_all (length src) src (omega arith) in
      rw
        (
          copy_into_buffer_exact N src pos (omega (arith, size)),
          copy_into_buffer-truncate_valid N src (length src) pos
              (omega (arith, size, find_first_null-NoNull src (effective_bytes-NoNull input)))
              (rw whole (effective_bytes-IsUtf8 input valid)),
        )
        (rw whole refl)

  -- At a capacity above 0 and for an input shorter than 2^63, `set_lossy` returns and leaves a
  -- valid value whose content is a valid prefix of the input up to its first null, ended as
  -- `IsCut` says. It does and returns what `set` does, unless the input is not valid or the bytes
  -- before its first null do not fit.
  pub set_lossy_lem :
      (input : Bytes)
      → IsSlice input
      → ((set_lossy fs input).1 ≡ ok tt)
        × IsPrefixOf (effective_bytes input) (set_lossy fs input).0
        × ((set_lossy fs input ≡ set fs input) ⊎ ((¬ IsUtf8 input) ⊎ (N < find_first_null input)))
  set_lossy_lem input small =
      let (returns, cut) = set_lossy-IsPrefixOf input small in
      (
        returns,
        cut,
        elim (Bool-cases (is_utf8 input)) [
          | inr bad ↦ inr (inl (is_utf8-false input bad))
          | inl good ↦ elim (dec_lt N (find_first_null input)) [
            | yes big ↦ inr (inr big)
            | no fits ↦ inl (set_lossy-set input ((is_utf8_iff input).0 good) (omega arith))
          ]
        ],
      )

module _ {N : ℕ} (fs : FixedStr N) (wf : IsFixedStr fs) where
  -- A cut below the length zeroes the bytes behind it. Any other changes nothing.
  pub truncate_lem :
      (new_len : ℕ)
      → truncate fs new_len ≡ (
          if ltb new_len (len fs)
          then (record { bytes = take new_len fs.bytes ++ zeros (N - new_len) }, ok tt)
          else (fs, ok tt))
  unfolding truncate
  truncate_lem new_len = elim (dec_lt new_len (find_first_null fs.bytes)) [
    | yes cut ↦ rw (lt→ltb new_len (find_first_null fs.bytes) cut) (
        rw
          (fill_zero_lem fs.bytes new_len N (omega (arith, find_first_null-le fs.bytes, wf.size))
            (sym wf.size))
          refl)
    | no keep ↦ rw (le→ltb new_len (find_first_null fs.bytes) (omega arith)) refl
  ]

  -- On a well-formed value `truncate` returns, keeps the value well-formed, and cuts the content
  -- at `new_len` bytes.
  pub truncate-content :
      (new_len : ℕ)
      → ((truncate fs new_len).1 ≡ ok tt)
        × IsFixedStr (truncate fs new_len).0
        × (content (truncate fs new_len).0 ≡ take new_len (content fs))
  unfolding len
  truncate-content new_len = elim (dec_lt new_len (find_first_null fs.bytes)) [
    | yes cut ↦
        let cut_bytes = take new_len fs.bytes in
        let rest = N - new_len in
        rw (truncate_lem new_len, lt→ltb new_len (find_first_null fs.bytes) cut)
          (
            refl,
            record {
              size = omega (
                arith,
                length-append cut_bytes (zeros rest),
                length-zeros rest,
                length-take new_len fs.bytes,
                find_first_null-le fs.bytes,
                wf.size,
              );
              small = wf.small;
            },
            effective_bytes-append_zeros cut_bytes rest
                ∙ effective_bytes-take new_len fs.bytes (omega arith)
                ∙ sym (take-effective_bytes new_len fs.bytes (omega arith)),
          )
    | no keep ↦
        rw (truncate_lem new_len, le→ltb new_len (find_first_null fs.bytes) (omega arith))
          (
            refl,
            wf,
            sym (take_all new_len (content fs) (omega (arith, length-effective_bytes fs.bytes))),
          )
  ]

-- `clear` leaves no content.
pub clear-content :
    {N : ℕ} (fs : FixedStr N)
    → ((clear fs).bytes ≡ zeros N) × (content (clear fs) ≡ []) × (len (clear fs) ≡ 0)
unfolding clear len effective_bytes
clear-content {N} fs = (refl, rw (find_first_null-zeros N) refl, find_first_null-zeros N)
