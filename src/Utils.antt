-- ===== src/Utils.antt =====
-- .patroni/patroni/utils.py: the parsers of configuration values.
mod Number
mod Flag
mod Str
mod Units
pub mod Patch
unfoldable pub use Number.*
unfoldable pub use Flag.*
unfoldable pub use Str.*
unfoldable pub use Units.*
