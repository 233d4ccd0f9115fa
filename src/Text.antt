-- ===== src/Text.antt =====
-- Go strings as lists of bytes, with what the program uses of the packages strings, unicode,
-- unicode/utf8, path/filepath and net.
mod Utf8
pub mod Trim
pub mod FilePath
pub mod Address
pub mod Repair
pub mod Json
mod Tests
unfoldable pub use Utf8.*
