-- ===== src/Text.antt =====
-- Rust's `str` and `String` as lists of code points, with the standard library's operations that
-- the source calls. The UTF-8 length of a text is written out where the source measures bytes.
mod Chars
mod Search
mod Split
mod Blank
mod Once
mod Parts
unfoldable pub use Chars.*
unfoldable pub use Search.*
unfoldable pub use Split.*
pub use Blank.*
pub use Once.*
pub use Parts.*
