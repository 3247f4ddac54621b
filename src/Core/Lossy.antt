-- ===== src/Core/Lossy.antt =====
-- `to_string_lossy` of src/fs_core.rs.
use fixed_str.Common.{ℕ, ◌≤◌, ◌≡◌, ◌↔◌, refl, true, length, take, drop, arith, ◌++◌, length-take}
use fixed_str.Error.{ok, ◌>>=◌}
use fixed_str.Utf8.{Bytes, IsUtf8}
use fixed_str.Utf8.Lossy.{
  from_utf8_lossy, from_utf8_lossy-IsUtf8, from_utf8_lossy_iff, from_utf8_lossy-take,
}
use fixed_str.Helpers.{find_first_null}
use fixed_str.Helpers.Null.{find_first_null-le}
use fixed_str.EffectiveBytes.Content.{slice_to-effective_bytes, take-effective_bytes}
use fixed_str.Core.{FixedStr, content, len, is_valid, to_string_lossy}
use fixed_str.Core.Access.{IsPrefixCut, is_valid_iff}

pub to_string_lossy_lem :
    {N : ℕ} (fs : FixedStr N) → to_string_lossy fs ≡ ok (from_utf8_lossy (content fs))
unfolding to_string_lossy len
to_string_lossy_lem fs = rw (slice_to-effective_bytes fs.bytes, ◌>>=◌) refl

-- What `to_string_lossy` makes of a value whose `as_str` is `p`.
pub record IsRepaired {N : ℕ} (fs : FixedStr N) (p t : Bytes) : Type 0 where
  pub string : IsUtf8 t
  pub unchanged : (t ≡ content fs) ↔ (is_valid fs ≡ true)
  pub front : t ≡ p ++ from_utf8_lossy (drop (length p) (content fs))

pub to_string_lossy-IsRepaired :
    {N : ℕ} (fs : FixedStr N) (p : Bytes)
    → IsPrefixCut fs.bytes N p
    → IsRepaired fs p (from_utf8_lossy (content fs))
to_string_lossy-IsRepaired fs p (n, cut, whole, good) =
    let same = from_utf8_lossy_iff (content fs) in
    let valid = is_valid_iff fs in
    let short : n ≤ find_first_null fs.bytes = omega (arith, cut.within) in
    let size : length p ≡ n =
      rw whole (omega (arith, length-take n fs.bytes, find_first_null-le fs.bytes)) in
    let front : p ≡ take n (content fs) = rw (whole, take-effective_bytes n fs.bytes short) refl in
    record {
      string = from_utf8_lossy-IsUtf8 (content fs);
      unchanged = (λ h. valid.1 (same.0 h), λ h. same.1 (valid.0 h));
      front = rw (size, front) (from_utf8_lossy-take n (content fs) (rw front at good));
    }
