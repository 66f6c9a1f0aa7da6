-- ===== src/Text.antt =====
-- The Go string functions that the program calls, over strings as lists of bytes.
mod Equal
mod Search
mod Trim
mod Maps
mod Index
mod Number
mod Order
mod Edges
mod Scan
unfoldable pub use Equal.*
unfoldable pub use Search.*
unfoldable pub use Number.*
pub use Trim.*
unfoldable pub use Maps.*
unfoldable pub use Order.*
pub use Index.*
pub use Edges.*
unfoldable pub use Scan.*
