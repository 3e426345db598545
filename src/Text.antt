-- ===== src/Text.antt =====
-- Texts as lists of code points, and the parts of Python's text handling that the code uses:
-- str(int), str(UUID), json.dumps of a string, and encoding to UTF-8.
pub mod Decimal
pub mod Json
pub mod Uuid
pub mod Ascii
pub mod Equality
unfoldable pub use Json.*
unfoldable pub use Decimal.*
unfoldable pub use Uuid.*
unfoldable pub use Equality.*
pub use Ascii.*
