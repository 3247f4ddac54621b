-- ===== src/EffectiveBytes.antt =====
-- src/effective_bytes.rs: the bytes before the first null, and the iterator over them.
pub mod Content
pub mod Write
use fixed_str.Common.{
  ℕ, zero, suc, ◌+◌, Option, none, some, ltb, if◌then◌else◌, take, get_elem?, length,
}
use fixed_str.Error.{Outcome, ok, panic, ◌>>=◌}
use fixed_str.Utf8.{Bytes}
use fixed_str.Slice
use fixed_str.Helpers.{find_first_null}

-- `effective_bytes` of a slice, and of what derefs to one: `&self[..find_first_null(self)]`. The
-- index is in range, so that the slice does not panic (`slice_to-effective_bytes`).
unfoldable pub effective_bytes : Bytes → Bytes
effective_bytes s = take (find_first_null s) s

-- `EffectiveBytesIter`
pub record EffectiveBytesIter : Type 0 where
  pub bytes : Bytes
  pub index : ℕ
  pub len : ℕ

-- `next`: the iterator after the call, and the item.
unfoldable pub next : EffectiveBytesIter → Outcome (EffectiveBytesIter × Option ℕ)
next it =
    if ltb it.index it.len
    then (Slice.index it.bytes it.index >>= λ byte.
        ok (record it { index = it.index + 1 }, some byte))
    else ok (it, none)
