-- ===== src/Prelude/Text.antt =====
-- Rust's `str` as the list of its code points, and the `str` methods that the program calls.
-- Positions are counted in code points: every slice of the source is at a code point's boundary.
-- `utf8_len` is the length in bytes, which `str::len` returns.
mod Base
mod Search
mod Trim
pub mod Laws
pub mod Find
pub mod Decimal
unfoldable pub use Base.*
unfoldable pub use Search.*
unfoldable pub use Trim.*
