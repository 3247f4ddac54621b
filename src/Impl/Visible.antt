-- ===== src/Impl/Visible.antt =====
-- The abstract view of `FixedStr`, of src/fs_impl.rs: the values up to what `Ord` and `Hash` see.
use Prim.Native.Nat.{eq}
use mathlib.Core.Quot
use mathlib.Core.Quot.{Quot, Quot-set}
use mathlib.Core.HLevel.{Σ_prop_path}
use native.Mathlib.Bridge.{le_prop}
use native.Mathlib.Nat.{ℕ_set}
use fixed_str.Common.{ℕ, ◌^◌, ◌≤◌, ◌<◌, ◌≡◌, ◌∙◌, [], ◌∷◌, length, take, arith}
use fixed_str.Utf8.{Bytes}
use fixed_str.Helpers.Null.{NoNull, find_first_null-le}
use fixed_str.Helpers.Copy.{pad, length-pad}
use fixed_str.EffectiveBytes.Content.{
  effective_bytes-pad, effective_bytes_of_NoNull, effective_bytes-NoNull, length-effective_bytes,
}
use fixed_str.Core.{FixedStr, content, truncate}
use fixed_str.Core.Access.{IsFixedStr}
use fixed_str.Core.Modify.{truncate-content}
use fixed_str.Impl.{cmp}
use fixed_str.Impl.Order.{bytes_cmp_sound, bytes_cmp_refl}

-- The well-formed values.
abbrev pub Value : ℕ → Type 0
Value N = (fs : FixedStr N) × IsFixedStr fs

abbrev pub IsSame : (N : ℕ) → Value N → Value N → Type 0
IsSame N a b = cmp a.0 b.0 ≡ eq

abbrev pub Visible : ℕ → Type 0
Visible N = Quot (IsSame N)

-- What a value can show: at most `N` bytes, none of them null.
abbrev pub IsText : ℕ → Bytes → Type 0
IsText N s = NoNull s × (length s ≤ N)

abbrev pub Text : ℕ → Type 0
Text N = (s : Bytes) × IsText N s

NoNull-prop : (s : Bytes) → IsProp (NoNull s)
NoNull-prop [] = hlevel
NoNull-prop (b ∷ s) = hlevel (NoNull-prop s)

Bytes_set : IsSet Bytes
Bytes_set = hlevel ℕ_set

pub Text_set : (N : ℕ) → IsSet (Text N)
Text_set N = hlevel (Bytes_set, NoNull-prop, le_prop)

Text-ext : {N : ℕ} (s t : Text N) → s.0 ≡ t.0 → s ≡ t
Text-ext s t e = Σ_prop_path (λ s. hlevel (NoNull-prop s, le_prop)) e

abbrev pub value_text : {N : ℕ} → Value N → Text N
value_text (fs, wf) = (
  content fs,
  (
    effective_bytes-NoNull fs.bytes,
    omega (arith, length-effective_bytes fs.bytes, find_first_null-le fs.bytes, wf.size),
  ),
)

pub value_text-IsSame : {N : ℕ} (a b : Value N) → IsSame N a b → value_text a ≡ value_text b
unfolding cmp
value_text-IsSame a b e =
    Text-ext (value_text a) (value_text b) (bytes_cmp_sound (content a.0) (content b.0) e)

-- What a value shows.
unfoldable pub view : {N : ℕ} → Visible N → Text N
view {N} = Quot.lift (Text_set N) value_text value_text-IsSame

-- The value that shows a text.
unfoldable pub shown : {N : ℕ} → N < 2 ^ 63 → Text N → Visible N
shown {N} small (s, (no_null, fits)) =
    Quot.mk (record { bytes = pad N s }, record { size = length-pad N s fits; small = small })

content-pad : (N : ℕ) (s : Bytes) → NoNull s → content {N = N} (record { bytes = pad N s }) ≡ s
content-pad N s h = effective_bytes-pad N s ∙ effective_bytes_of_NoNull s h

view-shown : {N : ℕ} (small : N < 2 ^ 63) (t : Text N) → view (shown small t) ≡ t
unfolding view shown
view-shown {N} small t = Text-ext _ t (content-pad N t.0 t.1.0)

shown-value_text :
    {N : ℕ} (small : N < 2 ^ 63) (a : Value N) → shown small (value_text a) ≡ Quot.mk a
unfolding shown cmp
shown-value_text {N} small a = Quot.sound (
    rw (content-pad N (content a.0) (effective_bytes-NoNull a.0.bytes))
      (bytes_cmp_refl (content a.0)))

shown-view : {N : ℕ} (small : N < 2 ^ 63) (v : Visible N) → shown small (view v) ≡ v
unfolding view
shown-view small = Quot.ind (λ v. Quot-set _ _) (shown-value_text small)

abbrev pub truncated : {N : ℕ} → ℕ → Value N → Value N
truncated k (fs, wf) = ((truncate fs k).0, (truncate-content fs wf k).1)

pub truncated-IsSame :
    {N : ℕ} (k : ℕ) (a b : Value N) → IsSame N a b → IsSame N (truncated k a) (truncated k b)
unfolding cmp
truncated-IsSame k a b e =
    rw
      (
        (truncate-content a.0 a.1 k).2,
        (truncate-content b.0 b.1 k).2,
        bytes_cmp_sound (content a.0) (content b.0) e,
      )
      (bytes_cmp_refl (take k (content b.0)))

-- `truncate` of what is shown.
unfoldable pub cut : {N : ℕ} → ℕ → Visible N → Visible N
cut k =
    Quot.lift Quot-set (λ a. Quot.mk (truncated k a))
      (λ a b e. Quot.sound (truncated-IsSame k a b e))

view-cut : {N : ℕ} (k : ℕ) (v : Visible N) → (view (cut k v)).0 ≡ take k (view v).0
unfolding view cut
view-cut k = Quot.ind (λ v. Bytes_set _ _) (λ a. (truncate-content a.0 a.1 k).2)

-- Up to what `cmp` calls equal, the well-formed values of a capacity below 2^63 are the texts of
-- at most `N` bytes without a null: `view`, the content, and `shown`, the padded text, are inverse
-- to each other. `truncate` does not depend on what `cmp` does not see, and cuts the text.
pub view-Visible :
    (N : ℕ) (small : N < 2 ^ 63)
    → ((v : Visible N) → shown small (view v) ≡ v)
      × ((t : Text N) → view (shown small t) ≡ t)
      × ((k : ℕ) (v : Visible N) → (view (cut k v)).0 ≡ take k (view v).0)
view-Visible N small = (shown-view small, view-shown small, view-cut)
