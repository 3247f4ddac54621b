-- ===== src/Examples/Compare.antt =====
-- Comparisons and the iterator on concrete values.
use mathlib.Core.Quot
use fixed_str.Impl.Visible.{Visible, Text, view, shown, cut, view-Visible}
use fixed_str.Common.{
  get_elem?, ◌<◌, ◌^◌, take, arith, ℕ, ◌≢◌, some, List, replicate, length-replicate, ◌≡◌, ◌↔◌, refl,
  suc, [], ◌∷◌, true,
}
use fixed_str.Error.{ok}
use fixed_str.Utf8.{Bytes, from_utf8, is_utf8, step, lead}
use fixed_str.EffectiveBytes.{effective_bytes}
use fixed_str.Helpers.{find_first_null}
use fixed_str.Core.{FixedStr, content, len, is_valid, try_as_str}
use fixed_str.Buffer.{FixedStrBuf}
use fixed_str.Impl.{
  buf_content, eq_str, cmp, buf_cmp, hash, buf_hash, partial_cmp, buf_partial_cmp, borrow,
  into_iter, bytes_eq,
}
use fixed_str.Impl.Order.{IsBefore, IsLawful, cmp-IsLawful}
use fixed_str.Impl.Chars.{cmp-IsBefore}
use fixed_str.Impl.Borrow.{feed_slice, feed_str, hash-borrow}
use fixed_str.Slice.{Returns}
use fixed_str.Utf8.Chars.{encode_all, AllScalar}
use Prim.Native.Nat.{eq, lt}
use fixed_str.Impl.Convert.{collect, item_after, collect-into_iter}
use fixed_str.Examples.Values.{hi, hi-IsFixedStr, hi-is_valid}

-- `hi` with bytes behind a null.
abbrev padded : Bytes
padded = 0x68 ∷ 0x69 ∷ 0 ∷ 0x79 ∷ []

padded_eq : eq_str hi padded ≡ true
unfolding eq_str effective_bytes find_first_null bytes_eq
padded_eq = refl

cmp-IsLawful_example :
    IsLawful {H = Bytes} (cmp {N = 4}) (hash {N = 4}) content
    × IsLawful {H = Bytes} (buf_cmp {N = 4}) (buf_hash {N = 4}) buf_content
    × ((a b : FixedStr 4) → partial_cmp a b ≡ some (cmp a b))
    × ((a b : FixedStrBuf 4) → buf_partial_cmp a b ≡ some (buf_cmp a b))
cmp-IsLawful_example = cmp-IsLawful 4 Bytes

-- `é`
abbrev acute : FixedStr 4
acute = record { bytes = 0xc3 ∷ 0xa9 ∷ 0 ∷ 0 ∷ [] }

acute-is_valid : is_valid acute ≡ true
unfolding is_valid try_as_str from_utf8 is_utf8 effective_bytes find_first_null step lead
acute-is_valid = refl

cmp-IsBefore_example :
    (cs ds : List ℕ) × AllScalar cs
    × AllScalar ds
    × (content hi ≡ encode_all cs)
    × (content acute ≡ encode_all ds)
    × ((cmp hi acute ≡ lt) ↔ IsBefore cs ds)
    × ((cmp hi acute ≡ eq) ↔ (cs ≡ ds))
cmp-IsBefore_example = cmp-IsBefore hi acute hi-is_valid acute-is_valid

hash-borrow_example :
    Returns (borrow hi) (λ s. hash (feed_slice (λ n. replicate 8 n)) hi [] ≢ feed_str s [])
hash-borrow_example =
    hash-borrow hi (λ n. replicate 8 n) [] hi-IsFixedStr (λ n. length-replicate 8 n)

collect-into_iter_example :
    (collect (suc (len hi)) (into_iter hi) ≡ ok (content hi))
    × (item_after 3 (into_iter hi) ≡ ok (get_elem? (content hi) 3))
collect-into_iter_example = collect-into_iter hi 3

small_capacity : 4 < 2 ^ 63
small_capacity = omega arith

view-Visible_example :
    ((v : Visible 4) → shown small_capacity (view v) ≡ v)
    × ((t : Text 4) → view (shown small_capacity t) ≡ t)
    × ((k : ℕ) (v : Visible 4) → (view (cut k v)).0 ≡ take k (view v).0)
view-Visible_example = view-Visible 4 small_capacity

-- A null is behind what is shown.
shown_padded : (view (Quot.mk (hi, hi-IsFixedStr))).0 ≡ 0x68 ∷ 0x69 ∷ []
unfolding view effective_bytes find_first_null
shown_padded = refl
