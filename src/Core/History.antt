-- ===== src/Core/History.antt =====
-- Calls on a value of src/fs_core.rs: each keeps it well-formed.
use fixed_str.Common.{
  ℕ, ◌<◌, List, [], ◌∷◌, length, arith, length-set, ltb, leb, leb→le, Bool-cases, inl, inr,
}
use fixed_str.Utf8.{Bytes}
use fixed_str.Slice.{write, length-zeros}
use fixed_str.Helpers.{find_first_null}
use fixed_str.Helpers.Copy.{length-pad}
use fixed_str.EffectiveBytes.{effective_bytes}
use fixed_str.EffectiveBytes.Content.{length-effective_bytes}
use fixed_str.Helpers.Search.{IsSlice}
use fixed_str.Core.{FixedStr, set, set_lossy, clear, truncate, write_byte}
use fixed_str.Core.Access.{IsFixedStr}
use fixed_str.Core.Modify.{set_lem, set_lossy-IsPrefixOf, truncate-content}

-- A call on `&mut self`.
pub data Change : Type 0 where
  setting setting_lossy : Bytes → Change
  clearing : Change
  truncating : ℕ → Change
  writing : (i b : ℕ) → Change

-- The state that a call leaves, however it ends.
unfoldable pub apply : {N : ℕ} → FixedStr N → Change → FixedStr N
apply fs (setting input) = (set fs input).0
apply fs (setting_lossy input) = (set_lossy fs input).0
apply fs clearing = clear fs
apply fs (truncating n) = (truncate fs n).0
apply fs (writing i b) = (write_byte fs i b).0

-- The strings that are passed are no longer than a slice can be.
abbrev pub IsSmall : Change → Type 0
IsSmall (setting input) = IsSlice input
IsSmall (setting_lossy input) = IsSlice input
IsSmall _ = Unit

abbrev pub AllSmall : List Change → Type 0
AllSmall [] = Unit
AllSmall (c ∷ cs) = IsSmall c × AllSmall cs

module _ {N : ℕ} (pos : 0 < N) where
  set-IsFixedStr : (fs : FixedStr N) (input : Bytes) → IsFixedStr fs → IsFixedStr (set fs input).0
  set-IsFixedStr fs input wf = elim (Bool-cases (leb (find_first_null input) N)) [
    | inl fits ↦
        rw (set_lem fs pos input, fits)
          (record {
            size = length-pad N (effective_bytes input) (
                omega (arith, length-effective_bytes input, leb→le (find_first_null input) N fits));
            small = wf.small;
          })
    | inr big ↦ rw (set_lem fs pos input, big) wf
  ]

  write_byte-IsFixedStr :
      (fs : FixedStr N) (i b : ℕ) → IsFixedStr fs → IsFixedStr (write_byte fs i b).0
  unfolding write_byte write
  write_byte-IsFixedStr fs i b wf = elim (Bool-cases (ltb i (length fs.bytes))) [
    | inl inside ↦
        rw inside
          (record { size = omega (arith, length-set fs.bytes i b, wf.size); small = wf.small })
    | inr outside ↦ rw outside wf
  ]

  pub apply-IsFixedStr :
      (fs : FixedStr N) (c : Change) → IsSmall c → IsFixedStr fs → IsFixedStr (apply fs c)
  unfolding apply clear
  apply-IsFixedStr fs (setting input) small wf = set-IsFixedStr fs input wf
  apply-IsFixedStr fs (setting_lossy input) small wf =
      let left = (set_lossy-IsPrefixOf fs pos input small).1 in
      record { size = left.size; small = wf.small }
  apply-IsFixedStr fs clearing small wf = record { size = length-zeros N; small = wf.small }
  apply-IsFixedStr fs (truncating n) small wf = (truncate-content fs wf n).1
  apply-IsFixedStr fs (writing i b) small wf = write_byte-IsFixedStr fs i b wf
