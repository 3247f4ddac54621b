-- ===== src/Serialize/Stream.antt =====
-- `binrw` of src/serialize_ext.rs on a stream: values written one after another are read in order.
use fixed_str.Common.{
  ℕ, zero, suc, ◌≤◌, ◌<◌, ◌≡◌, refl, ◌⊎◌, inl, inr, ◌∙◌, sym, ap, List, [], ◌∷◌, ◌++◌, All, length,
  take, drop, arith, append_assoc, append-nil, drop-append, take-append-drop, length-take,
}
use native.Mathlib.Decide.{dec_lt}
use fixed_str.Utf8.{Bytes}
use fixed_str.Core.{FixedStr}
use fixed_str.Core.Access.{IsFixedStr}
use fixed_str.Serialize.{Io, done, failed, bind, bind-done, read_options, write_options}
use fixed_str.Serialize.Archive.{IsWriter}

-- A reader of the bytes `unread`: `read_exact` takes the first `n` of them, or fails if there are
-- fewer, as it does on a slice or a cursor.
pub record IsReader {E R : Type 0} (read_exact : ℕ → R → Io E (Bytes × R)) (unread : R → Bytes)
    : Type 0 where
  pub takes :
      (r : R) (s rest : Bytes)
      → unread r ≡ s ++ rest
      → (r' : R) × (read_exact (length s) r ≡ done (s, r')) × (unread r' ≡ rest)
  pub ends : (r : R) (n : ℕ) → length (unread r) < n → (e : E) × (read_exact n r ≡ failed e)

-- A loop over `write_options`, and one over `read_options`.
unfoldable pub write_values :
    {E W : Type 0} {N : ℕ} → (Bytes → W → Io E W) → List (FixedStr N) → W → Io E W
write_values write_all [] w = done w
write_values write_all (fs ∷ values) w =
    bind (write_options fs write_all w) (write_values write_all values)

unfoldable pub read_values :
    {E R : Type 0} (N : ℕ) → (ℕ → R → Io E (Bytes × R)) → ℕ → R → Io E (List (FixedStr N) × R)
read_values N read_exact zero r = done ([], r)
read_values N read_exact (suc n) r =
    bind (read_options N read_exact r)
      λ (fs, r'). bind (read_values N read_exact n r') λ (values, r''). done (fs ∷ values, r'')

-- The bytes of the values, one after another.
abbrev pub all_bytes : {N : ℕ} → List (FixedStr N) → Bytes
all_bytes [] = []
all_bytes (fs ∷ values) = fs.bytes ++ all_bytes values

written-write_values :
    {E W : Type 0} {N : ℕ} (write_all : Bytes → W → Io E W) (written : W → Bytes)
    (values : List (FixedStr N)) (w w' : W)
    → IsWriter write_all written
    → write_values write_all values w ≡ done w'
    → written w' ≡ written w ++ all_bytes values
unfolding write_values write_options
written-write_values write_all written [] w w' writer e =
    let same : w ≡ w' = cc in sym (append-nil (written w) ∙ ap written same)
written-write_values {E} {W} write_all written (fs ∷ values) w w' writer e =
    let (w1, e1, e2) = bind-done (write_all fs.bytes w) (write_values write_all values) w' e in
    written-write_values write_all written values w1 w' writer e2
    ∙ rw (writer.adds fs.bytes w w1 e1, append_assoc (written w) fs.bytes (all_bytes values)) refl

-- The next read: the first `N` bytes that are left, whatever they are, or an error.
abbrev pub IsNext : {E R : Type 0} (N : ℕ) → (ℕ → R → Io E (Bytes × R)) → (R → Bytes) → R → Type 0
IsNext {E} {R} N read_exact unread r =
    ((N ≤ length (unread r))
      × (r' : R) × (read_options N read_exact r ≡ done (record { bytes = take N (unread r) }, r'))
      × (unread r' ≡ drop N (unread r)))
    ⊎ ((length (unread r) < N) × (e : E) × (read_options N read_exact r ≡ failed e))

module _ {E R : Type 0} (N : ℕ) (read_exact : ℕ → R → Io E (Bytes × R)) (unread : R → Bytes)
    (reader : IsReader read_exact unread) where
  read_options_takes :
      (fs : FixedStr N) (rest : Bytes) (r : R)
      → IsFixedStr fs
      → unread r ≡ fs.bytes ++ rest
      → (r' : R) × (read_options N read_exact r ≡ done (fs, r')) × (unread r' ≡ rest)
  unfolding read_options
  read_options_takes fs rest r wf e =
      let (r', taken, left) = reader.takes r fs.bytes rest e in
      (r', rw (rw wf.size at taken, read_options) refl, left)

  read_values_takes :
      (values : List (FixedStr N)) (rest : Bytes) (r : R)
      → All IsFixedStr values
      → unread r ≡ all_bytes values ++ rest
      → (r' : R) × (read_values N read_exact (length values) r ≡ done (values, r'))
        × (unread r' ≡ rest)
  unfolding read_values
  read_values_takes [] rest r wf e = (r, refl, e)
  read_values_takes (fs ∷ values) rest r (wf, others) e =
      let (r1, first, left) =
        read_options_takes fs (all_bytes values ++ rest) r wf
          (e ∙ append_assoc fs.bytes (all_bytes values) rest) in
      let (r2, later, left') = read_values_takes values rest r1 others left in
      (r2, rw (first, bind) (rw later refl), left')

  read_options-IsNext : (r : R) → IsNext N read_exact unread r
  unfolding read_options
  read_options-IsNext r = elim (dec_lt (length (unread r)) N) [
    | yes short ↦
        let (e, failing) = reader.ends r N short in inr (short, e, rw (failing, read_options) refl)
    | no enough ↦
        let s = take N (unread r) in
        let size : length s ≡ N = omega (arith, length-take N (unread r)) in
        let (r', taken, left) =
          reader.takes r s (drop N (unread r)) (sym (take-append-drop N (unread r))) in
        inl (omega arith, r', rw (rw size at taken, read_options) refl, left)
  ]

-- For every writer that keeps what it is given, and every reader that takes the first of the bytes
-- it has not read, or fails if there are fewer: well-formed values that `write_options` wrote one
-- after another are read back in order by `read_options`, with all of their bytes, from a reader
-- that stands before them, and it then stands behind them. The next read takes the next `N` bytes,
-- whatever they are, or fails if there are fewer.
pub read_values-write_values :
    {E W R : Type 0} {N : ℕ} (write_all : Bytes → W → Io E W) (written : W → Bytes)
    (read_exact : ℕ → R → Io E (Bytes × R)) (unread : R → Bytes) (values : List (FixedStr N))
    (w w' : W) (r : R) (rest : Bytes)
    → IsWriter write_all written
    → IsReader read_exact unread
    → All IsFixedStr values
    → write_values write_all values w ≡ done w'
    → unread r ≡ drop (length (written w)) (written w') ++ rest
    → (r' : R) × (read_values N read_exact (length values) r ≡ done (values, r'))
      × (unread r' ≡ rest)
      × IsNext N read_exact unread r'
read_values-write_values {N = N} write_all written read_exact unread values w w' r rest writer
      reader wf e at =
    let whole = written-write_values write_all written values w w' writer e in
    let kept : drop (length (written w)) (written w') ≡ all_bytes values =
      rw whole (drop-append (written w) (all_bytes values) (length (written w)) refl) in
    let (r', back, left) =
      read_values_takes N read_exact unread reader values rest r wf (rw kept at at) in
    (r', back, left, read_options-IsNext N read_exact unread reader r')
