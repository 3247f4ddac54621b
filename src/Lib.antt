-- ===== src/Lib.antt =====
-- The crate `fixed_str`: a null-padded UTF-8 string in an array of `N` bytes, and its builder.
--
-- How the parts fit together, and where each is modelled:
-- - Error.antt: src/fs_error.rs, `FixedStrError`, and `Outcome`: how a call ends, with a value,
--   an error value or a panic. `?` and the order of statements are its bind.
-- - Utf8.antt: what the crate uses of `core::str` and `char`. A byte is a natural number, a
--   `&str` is a list of bytes with `IsUtf8`. `from_utf8` is the automaton of the table of
--   well-formed sequences. Utf8/Run.antt has its behaviour on parts of a list, Utf8/Encode.antt
--   that of `encode_utf8`, Utf8/Head.antt and Utf8/Chars.antt the strings as lists of
--   characters, and Utf8/Lossy.antt `from_utf8_lossy`.
-- - Slice.antt: indexing, slicing and copying, each with the bounds check that panics.
-- - Helpers.antt: src/string_helpers.rs but for the hexadecimal functions. Helpers/Null.antt is
--   about the null scan, Helpers/Search.antt, Helpers/Rounds.antt, Helpers/Largest.antt,
--   Helpers/Kept.antt and Helpers/Agree.antt about the binary search, Helpers/Chars.antt,
--   Helpers/Fit.antt and Helpers/Boundary.antt about the linear scan, Helpers/Wide.antt about
--   strings of four-byte characters, Helpers/Copy.antt about `copy_into_buffer`.
-- - Hex.antt: `HEX_TABLE`, `fast_format_hex` and `dump_as_hex` of src/string_helpers.rs.
--   Hex/Spec.antt says what the text should be, Hex/Dump.antt is about the loop of
--   `dump_as_hex`, Hex/Together.antt about both loops side by side, Hex/Turn.antt and
--   Hex/Format.antt about `fast_format_hex` where the text fits, Hex/Short.antt and
--   Hex/Dots.antt where it does not, and Hex/RoundTrip.antt reads a dump back.
-- - EffectiveBytes.antt: src/effective_bytes.rs, with EffectiveBytes/Content.antt and
--   EffectiveBytes/Write.antt.
-- - Core.antt: src/fs_core.rs. `FixedStr N` is a record of the list `bytes` (the field `data`);
--   that its length is `N` is the predicate `IsFixedStr`. Core/Access.antt and Core/Lossy.antt
--   are about the accessors, Core/Construct.antt, Core/Const.antt, Core/Fit.antt and
--   Core/Loss.antt about the constructors, Core/Modify.antt about the modifiers,
--   Core/History.antt about calls, Core/Machine.antt and Core/Runs.antt about what sequences of
--   them do to the content, Core/Tidy.antt about the bytes behind it.
-- - Buffer.antt: src/fs_buffer.rs. `FixedStrBuf N` is a record of the array and the length. Its
--   abstract view is `text`, the bytes written so far, of Buffer/View.antt. Buffer/Push.antt,
--   Buffer/Char.antt, Buffer/Cut.antt, Buffer/Finish.antt, Buffer/Each.antt,
--   Buffer/Shorter.antt, Buffer/History.antt, Buffer/Clean.antt and Buffer/Lossy.antt are about
--   pushes, `truncate`, `finalize` with the conversions, characters pushed in a loop, the lossy
--   push against that loop, sequences of calls, and the views as a string. Buffer/Machine.antt
--   is the builder as a step relation on the text, and Buffer/Runs.antt that it runs as that
--   says.
-- - Impl.antt: src/fs_impl.rs, and the comparisons of src/fs_buffer.rs, with Impl/Order.antt,
--   Impl/Equal.antt, Impl/Chars.antt (the order on characters), Impl/Visible.antt (values up to
--   that order, a quotient), Impl/Borrow.antt (what a hasher is fed, by what the standard
--   library documents of `Hash` for slices and `str`), Impl/Convert.antt, Impl/Agree.antt with
--   Impl/Strict.antt (the ways to make a value of a string), Impl/Loss.antt (what they lose),
--   Impl/Piecewise.antt (a string pushed by characters), Impl/Histories.antt (the two equalities
--   after sequences of calls) and Impl/Both.antt (what both types have).
-- - Show.antt: the texts of `Debug` and `Display`, with Show/Debug.antt, and Show/Decimal.antt
--   and Show/Errors.antt for the texts of the errors. How the standard library quotes a `str`
--   for `{:?}` is an argument.
-- - Serialize.antt: src/serialize_ext.rs, with Serialize/RoundTrip.antt, Serialize/Stream.antt
--   (many values, one after another), Serialize/Archive.antt and Serialize/Accepts.antt. The
--   third-party readers, writers, drivers and formats are arguments; what is relied on is
--   `IsStream`, `IsReader`, `IsTextFormat`, `IsByteFormat`, `IsShowing`, `IsWriter` and
--   `IsDriver`.
-- - UnitTests.antt: the tests in the modules under `cfg(test)` of each file under src/, in
--   UnitTests/StringHelpers.antt, UnitTests/Builder.antt, UnitTests/BuilderCut.antt,
--   UnitTests/Values.antt, UnitTests/Rkyv.antt and UnitTests/Serde.antt, and those of
--   tests/fx_tests.rs, in UnitTests/Integration.antt and UnitTests/IntegrationMore.antt. Each is
--   a run of the model.
-- - Benches.antt: benches/hex_format.rs, with Benches/Same.antt.
-- - Common.antt: shared names, Boolean tests, and lists measured by native numbers.
--   Examples.antt: runs on concrete inputs.
--
-- A helper calls no other component. `FixedStr` and the builder call the helpers; `finalize`
-- makes a `FixedStr`, and `fast_format_hex` fills a builder. A method on `&mut self` returns the
-- state that it leaves together with how the call ended, so that an error or a panic shows the
-- state left behind.
--
-- Numbers: `usize` is a natural number. The midpoint of the binary search is computed modulo
-- 2^64, for slices shorter than 2^63, as Rust's slices are. Every other sum is a position in a
-- slice, or one plus at most four. Subtraction that could be negative is guarded as the source
-- guards it: `remaining` panics.
--
-- Fuel: `search_loop` has one round more than its interval is long, and each round halves the
-- interval; `boundary_loop` has one round more than there are bytes, and each round moves on by
-- at least one; `const_loop` has `N + 1` rounds for at most `N` bytes; `collect` has one call
-- for each byte and one more. `Debug` calls itself once, on the dump, so that two calls are
-- enough; `decimal_loop` has more rounds than digits, and `chunks_loop` has one for each byte.
-- Running out of any other fuel is a panic, so that a theorem that a call returns also says that
-- the fuel is enough.
--
-- Not modelled: rkyv's `Portable` and `COPY_OPTIMIZATION`, which are declarations without code;
-- src/lib.rs, which re-exports; what criterion measures.
pub mod Common
pub mod Error
pub mod Utf8
pub mod Slice
pub mod Helpers
pub mod EffectiveBytes
pub mod Core
pub mod Buffer
pub mod Hex
pub mod Impl
pub mod Show
pub mod Serialize
pub mod UnitTests
pub mod Benches
pub mod Examples
