-- ===== src/Utf8.antt =====
-- The part of Rust's `core::str` that the crate calls: `from_utf8` as the automaton of the table of
-- well-formed byte sequences (Unicode 3-7), and `char::encode_utf8`. A `&str` is a list of bytes
-- with `IsUtf8`.
pub mod Run
pub mod Encode
pub mod Head
pub mod Chars
pub mod Lossy
use fixed_str.Common.{
  ℕ, ◌+◌, ◌*◌, ◌/◌, ◌%◌, ◌≤◌, ◌<◌, ◌≡◌, refl, Bool, true, false, ◌&&◌, ◌||◌, Option, none, some,
  List, [], ◌∷◌, ltb, leb, ◌==◌, if◌then◌else◌,
}
use fixed_str.Error.{Outcome, ok, err, invalid_utf8}

abbrev pub Bytes : Type 0
Bytes = List ℕ

-- Between characters, or the kind of continuation bytes that must follow.
pub data State : Type 0 where
  start tail1 tail2 tail3 after_e0 after_ed after_f0 after_f4 : State

abbrev pub between : ℕ → ℕ → ℕ → Bool
between lo hi b = leb lo b && leb b hi

-- The first byte of a character.
unfoldable pub lead : ℕ → Option State
lead b =
    if ltb b 0x80
    then some start
    else if between 0xc2 0xdf b
    then some tail1
    else if b == 0xe0
    then some after_e0
    else if b == 0xed
    then some after_ed
    else if between 0xe1 0xef b
    then some tail2
    else if b == 0xf0
    then some after_f0
    else if between 0xf1 0xf3 b
    then some tail3
    else if b == 0xf4
    then some after_f4
    else none

unfoldable pub step : State → ℕ → Option State
step start b = lead b
step tail1 b = if between 0x80 0xbf b then some start else none
step tail2 b = if between 0x80 0xbf b then some tail1 else none
step tail3 b = if between 0x80 0xbf b then some tail2 else none
step after_e0 b = if between 0xa0 0xbf b then some tail1 else none
step after_ed b = if between 0x80 0x9f b then some tail1 else none
step after_f0 b = if between 0x90 0xbf b then some tail2 else none
step after_f4 b = if between 0x80 0x8f b then some tail2 else none

infixl 5 ◌>>=◌
abbrev pub ◌>>=◌ {ℓ κ} : {A : Type ℓ} {B : Type κ} → Option A → (A → Option B) → Option B
none >>= f = none
some a >>= f = f a

abbrev pub run : State → Bytes → Option State
run q [] = some q
run q (b ∷ s) = step q b >>= λ q'. run q' s

-- The bytes are well-formed UTF-8: the invariant of `&str`.
abbrev pub IsUtf8 : Bytes → Type 0
IsUtf8 s = run start s ≡ some start

abbrev pub accepts : Option State → Bool
accepts (some start) = true
accepts _ = false

-- `core::str::from_utf8(s).is_ok()`
unfoldable pub is_utf8 : Bytes → Bool
is_utf8 s = accepts (run start s)

-- `core::str::from_utf8`, with the crate's error for the library's.
unfoldable pub from_utf8 : Bytes → Outcome Bytes
from_utf8 s = if is_utf8 s then ok s else err invalid_utf8

-- A Unicode scalar value: a Rust `char`.
abbrev pub is_scalar : ℕ → Bool
is_scalar c = ltb c 0xd800 || between 0xe000 0x10ffff c

-- `char::encode_utf8`
unfoldable pub encode_utf8 : ℕ → Bytes
encode_utf8 c =
    if ltb c 0x80
    then c ∷ []
    else if ltb c 0x800
    then (0xc0 + c / 0x40) ∷ (0x80 + c % 0x40) ∷ []
    else if ltb c 0x10000
    then (0xe0 + c / 0x1000) ∷ (0x80 + c / 0x40 % 0x40) ∷ (0x80 + c % 0x40) ∷ []
    else (0xf0 + c / 0x40000)
      ∷ (0x80 + c / 0x1000 % 0x40)
      ∷ (0x80 + c / 0x40 % 0x40)
      ∷ (0x80 + c % 0x40)
      ∷ []
