-- ===== src/Fixtures.antt =====
-- Concrete stand-ins for what the program takes from other crates, for the examples: a parser of
-- one-character patterns, byte codecs, addresses, hex and a hash. Each meets the laws of its
-- parameter, so the laws can hold together.
pub mod Vaults
pub mod Stores
pub mod Parser
pub mod Scales
pub mod Chain
unfoldable pub use Parser.*
pub use Scales.*
pub use Chain.*
