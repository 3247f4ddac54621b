-- ===== src/Impl/Histories.antt =====
-- Values of src/fs_core.rs after calls, under the two equalities of src/fs_impl.rs and the derive.
use Prim.Native.Nat.{eq}
use fixed_str.Common.{ℕ, ◌<◌, ◌≡◌, ◌↔◌, ◌∙◌, sym, ap, true, List}
use fixed_str.Utf8.{Bytes}
use fixed_str.Helpers.Copy.{pad}
use fixed_str.Core.{FixedStr, content}
use fixed_str.Core.Access.{IsFixedStr}
use fixed_str.Core.History.{Change, AllSmall}
use fixed_str.Core.Machine.{call_all, Trace}
use fixed_str.Core.Runs.{call_all-Trace}
use fixed_str.Core.Tidy.{IsPadded, AllWhole, call_all-IsPadded}
use fixed_str.Impl.{cmp, derived_eq}
use fixed_str.Impl.Order.{bytes_cmp_refl, bytes_cmp_sound}
use fixed_str.Impl.Equal.{bytes_eq_refl, bytes_eq_sound}

-- On values with only nulls behind their contents the two equalities agree.
derived_eq-cmp :
    {N : ℕ} (a b : FixedStr N) → IsPadded a → IsPadded b → (derived_eq a b ≡ true) ↔ (cmp a b ≡ eq)
unfolding derived_eq cmp
derived_eq-cmp {N} a b tidy_a tidy_b = (
  λ h.
      let same : content a ≡ content b = ap content' (bytes_eq_sound a.bytes b.bytes h) in
      rw same (bytes_cmp_refl (content b)),
  λ h.
      let same = bytes_cmp_sound (content a) (content b) h in
      let whole : a.bytes ≡ b.bytes = tidy_a ∙ ap (pad N) same ∙ sym tidy_b in
      rw whole (bytes_eq_refl b.bytes),
)
  where
    content' : Bytes → Bytes
    content' s = content {N = N} (record { bytes = s })

-- Of two well-formed values with only nulls behind their contents and a capacity above 0, each
-- under a sequence of `set`, `set_lossy` of inputs shorter than 2^63, `clear` and `truncate`: the
-- array of the first is the text at the end of a `Trace`, padded with nulls, so that a call leaves
-- nothing of older contents behind, and the derived `==` of the two is true exactly where `cmp`
-- says equal.
pub call_all-derived_eq :
    {N : ℕ} (fs gs : FixedStr N) (cs ds : List Change)
    → 0 < N
    → IsFixedStr fs × IsPadded fs
    → IsFixedStr gs × IsPadded gs
    → AllSmall cs × AllWhole cs
    → AllSmall ds × AllWhole ds
    → ((t : Bytes) × Trace N (content fs) cs (call_all fs cs).1 t
        × ((call_all fs cs).0.bytes ≡ pad N t))
      × ((derived_eq (call_all fs cs).0 (call_all gs ds).0 ≡ true)
          ↔ (cmp (call_all fs cs).0 (call_all gs ds).0 ≡ eq))
call_all-derived_eq fs gs cs ds pos (wf, tidy) (wf', tidy') (small, whole) (small', whole') =
    let a = (call_all fs cs).0 in
    let b = (call_all gs ds).0 in
    let tidy_a = call_all-IsPadded pos fs cs wf small whole tidy in
    (
      (content a, (call_all-Trace fs cs pos wf small).0, tidy_a),
      derived_eq-cmp a b tidy_a (call_all-IsPadded pos gs ds wf' small' whole' tidy'),
    )
