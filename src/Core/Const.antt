-- ===== src/Core/Const.antt =====
-- `new_const` of src/fs_core.rs: its copy loop, and how it compares with `new`.
use fixed_str.Common.{
  ap, ℕ, zero, suc, ◌+◌, ◌-◌, ◌≤◌, ◌<◌, ◌≡◌, refl, min, length, take, set, arith, ◌∙◌, ◌++◌, ◌∷◌,
  [], some, append_assoc, take_all, length-take, length-append, take-add, drop-cons, get_elem?,
  lt→ltb,
}
use native.Mathlib.Decide.{dec_lt}
use fixed_str.Error.{ok, ◌>>=◌}
use fixed_str.Utf8.{Bytes, IsUtf8}
use fixed_str.Slice.{zeros, length-zeros, index_lem, write_lem, Returns, Returns→ok}
use fixed_str.Helpers.{panic_on_zero}
use fixed_str.Helpers.Null.{find_first_null-le}
use fixed_str.Helpers.Largest.{IsLargest}
use fixed_str.Helpers.Copy.{pad}
use fixed_str.Helpers.Boundary.{find_valid_boundary-IsLargest}
use fixed_str.EffectiveBytes.{effective_bytes}
use fixed_str.EffectiveBytes.Content.{
  effective_bytes-pad, effective_bytes-IsUtf8, effective_bytes_idem,
}
use fixed_str.Core.{FixedStr, content, new, new_const, const_loop}
use fixed_str.Core.Construct.{new_fits}

-- The buffer when `i` bytes have been copied.
abbrev copied : ℕ → Bytes → ℕ → Bytes
copied N bytes i = take i bytes ++ zeros (N - i)

set-append : (xs ys : Bytes) (y v i : ℕ) → i ≡ length xs → set (xs ++ y ∷ ys) i v ≡ xs ++ v ∷ ys
set-append [] ys y v zero e = refl
set-append [] ys y v (suc i) e = absurd (omega arith)
set-append (x ∷ xs) ys y v zero e = absurd (omega arith)
set-append (x ∷ xs) ys y v (suc i) e = rw (set-append xs ys y v i (omega arith))

length-copied :
    (N : ℕ) (bytes : Bytes) (i : ℕ) → i ≤ N → i ≤ length bytes → length (copied N bytes i) ≡ N
length-copied N bytes i h k =
    omega (
      arith,
      length-append (take i bytes) (zeros (N - i)),
      length-zeros (N - i),
      length-take i bytes,
    )

copied_step :
    (N : ℕ) (bytes : Bytes) (i b : ℕ)
    → i < N
    → i < length bytes
    → get_elem? bytes i ≡ some b
    → set (copied N bytes i) i b ≡ copied N bytes (i + 1)
copied_step N bytes i b h k e =
    let (x, e', at) = drop-cons i (i + 1) bytes refl k in
    let one : take (i + 1) bytes ≡ take i bytes ++ (x ∷ []) =
      rw (take-add i 1 (i + 1) bytes refl, e') in
    let same : x ≡ b = cc (at, e) in
    let left : N - i ≡ suc (N - (i + 1)) = omega arith in
    rw (left, one, ← same, append_assoc)
      (set-append (take i bytes) (zeros (N - (i + 1))) 0 x i (omega (arith, length-take i bytes)))

const_loop_lem :
    (fuel N len : ℕ) (bytes : Bytes) (i : ℕ)
    → N < i + fuel
    → len ≤ length bytes
    → i ≤ min N len
    → const_loop fuel N len bytes i (copied N bytes i) ≡ ok (copied N bytes (min N len))
unfolding const_loop
const_loop_lem zero N len bytes i h fits room = absurd (omega arith)
const_loop_lem (suc fuel) N len bytes i h fits room = elim (dec_lt i (min N len)) [
  | no done ↦ let e : i ≡ min N len = omega arith in ground (arith, ap (copied N bytes) e)
  | yes more ↦
      let (b, e, at) = drop-cons i (i + 1) bytes refl (omega arith) in
      rw (lt→ltb i N (omega arith), lt→ltb i len (omega arith), index_lem bytes i b at)
        (rw (◌>>=◌, write_lem (copied N bytes i) i b (omega (arith, length-copied N bytes i)))
          (rw (◌>>=◌, copied_step N bytes i b (omega arith) (omega arith) at)
            (const_loop_lem fuel N len bytes (i + 1) (omega arith) fits (omega arith))))
]

pub const_loop_whole :
    (N n : ℕ) (bytes : Bytes)
    → n ≤ N
    → n ≤ length bytes
    → const_loop (suc N) N n bytes 0 (zeros N) ≡ ok (pad N (take n bytes))
const_loop_whole N n bytes room fits =
    let whole : N - 0 ≡ N = omega arith in
    let least : min N n ≡ n = omega arith in
    let size : length (take n bytes) ≡ n = omega (arith, length-take n bytes) in
    rw size
      (rw (whole, least) at (const_loop_lem (suc N) N n bytes 0 (omega arith) fits (omega arith)))

-- `new_const` of a string holds the longest prefix of it that ends between characters within the
-- capacity.
abbrev pub IsConst : (N : ℕ) → Bytes → FixedStr N → Type 0
IsConst N input fs =
    (n : ℕ) × IsLargest input (min N (length input)) n × (fs.bytes ≡ pad N (take n input))

-- At a capacity above 0 and for a valid string, `new_const` returns the longest valid prefix of
-- the string that fits, nulls included, padded with nulls.
pub new_const-IsConst :
    (N : ℕ) (input : Bytes) → 0 < N → IsUtf8 input → Returns (new_const N input) (IsConst N input)
unfolding new_const panic_on_zero
new_const-IsConst N input pos valid =
    let (n, e, best) =
      Returns→ok _ (IsLargest input _) (find_valid_boundary-IsLargest input N valid) in
    rw
      (
        lt→ltb 0 N pos,
        e,
        const_loop_whole N n input (omega (arith, best.within)) (omega (arith, best.within)),
      )
      (n, best, refl)

-- Where a whole string fits, `new_const` keeps all of it and `new` the part before its first null.
pub new_const_fits :
    (N : ℕ) (input : Bytes)
    → 0 < N
    → IsUtf8 input
    → length input ≤ N
    → new_const N input ≡ ok (record { bytes = pad N input })
unfolding new_const panic_on_zero
new_const_fits N input pos valid fits =
    let (n, e, best) =
      Returns→ok _ (IsLargest input _) (find_valid_boundary-IsLargest input N valid) in
    let all : n ≡ length input = omega (
      arith,
      best.within,
      best.largest (length input) (omega arith)
          (rw (take_all (length input) input (omega arith)) valid),
    ) in
    rw (lt→ltb 0 N pos, e, all, const_loop_whole N (length input) input fits (omega arith))
      (rw (take_all (length input) input (omega arith)))

-- Where a whole valid string fits into a capacity above 0, `new_const` and `new` both return
-- values, and the content of both is the string up to its first null.
pub new_const-new :
    (N : ℕ) (input : Bytes)
    → 0 < N
    → IsUtf8 input
    → length input ≤ N
    → (fs gs : FixedStr N) × (new_const N input ≡ ok fs)
      × (new N input ≡ ok gs)
      × (content fs ≡ effective_bytes input)
      × (content gs ≡ effective_bytes input)
new_const-new N input pos valid fits = (
  record { bytes = pad N input },
  record { bytes = pad N (effective_bytes input) },
  new_const_fits N input pos valid fits,
  new_fits N input pos (effective_bytes-IsUtf8 input valid)
      (omega (arith, find_first_null-le input)),
  effective_bytes-pad N input,
  effective_bytes-pad N (effective_bytes input) ∙ effective_bytes_idem input,
)
