-- ===== src/Buffer/Lossy.antt =====
-- The views of a value as a string, of src/fs_core.rs, and `to_string_lossy` of src/fs_buffer.rs.
use fixed_str.Common.{ℕ, ◌≡◌, refl, if◌then◌else◌}
use fixed_str.Error.{ok, err, invalid_utf8}
use fixed_str.Utf8.{Bytes}
use fixed_str.Utf8.Lossy.{from_utf8_lossy}
use fixed_str.Slice.{Returns→ok}
use fixed_str.Core
use fixed_str.Core.{FixedStr, content, is_valid, as_str, try_as_str, into_string, try_into_string}
use fixed_str.Core.Access.{IsFixedStr, IsPrefixCut, as_str-IsPrefixCut, try_as_str-as_str}
use fixed_str.Core.Lossy.{IsRepaired, to_string_lossy_lem, to_string_lossy-IsRepaired}
use fixed_str.Buffer.{to_string_lossy, from_fixed}

-- On a well-formed value, whatever its bytes, `as_str` and `into_string` return a valid prefix of
-- the bytes up to the first null, ended as `IsCut` says. `try_as_str` and `try_into_string` return
-- the same if `is_valid` holds, and an error otherwise. `to_string_lossy` of the value, and of a
-- builder made of it, is a valid string that begins with that prefix, and is the content itself
-- exactly where `is_valid` holds.
pub to_string_lossy-as_str :
    {N : ℕ} (fs : FixedStr N)
    → IsFixedStr fs
    → (p t : Bytes) × (as_str fs ≡ ok p)
      × (into_string fs ≡ ok p)
      × IsPrefixCut fs.bytes N p
      × (try_as_str fs ≡ (if is_valid fs then ok p else err invalid_utf8))
      × (try_into_string fs ≡ (if is_valid fs then ok p else err invalid_utf8))
      × (Core.to_string_lossy fs ≡ ok t)
      × (to_string_lossy (from_fixed fs) ≡ t)
      × IsRepaired fs p t
unfolding to_string_lossy from_fixed into_string try_into_string
to_string_lossy-as_str {N} fs wf =
    let (p, e, cut) = Returns→ok _ (IsPrefixCut fs.bytes N) (as_str-IsPrefixCut fs wf) in
    let tried = rw e at (try_as_str-as_str fs wf.size) in
    (
      p,
      from_utf8_lossy (content fs),
      e,
      e,
      cut,
      tried,
      tried,
      to_string_lossy_lem fs,
      refl,
      to_string_lossy-IsRepaired fs p cut,
    )
