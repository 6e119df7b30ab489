-- ===== src/Text.antt =====
-- Go strings as lists of code points, with equality and the order of `sort.Strings`. On valid
-- UTF-8 the order of the bytes is the order of the code points.
mod Defs
pub mod Order
unfoldable pub use Defs.*
