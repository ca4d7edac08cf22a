-- ===== src/Text.antt =====
-- Python's `str` as the list of its code points, with the methods that the program calls.
-- `str.lower` and `str.upper` follow Unicode's case tables: where the program calls them they are
-- a parameter.
mod Eq
pub mod Scan
pub mod Trim
pub mod Search
pub mod Match
pub use Eq.*
pub use Trim.*
unfoldable pub use Trim.{is_space, strip, lstrip}
pub use Search.*
unfoldable pub use Search.{split, replace, contains}
unfoldable pub use Scan.{
  close_run, runs, split_class, decimal, strip_char, digits_from, int_of, collapse,
}
