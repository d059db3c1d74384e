-- ===== src/Types.antt =====
-- The shared types of execution-engine/types/src: big numbers, access rights, unforgeable
-- references and keys. Addresses are `[u8; 32]`, read as numbers.
pub mod Bits
mod U512
mod Flags
mod Refs
mod Keys
unfoldable pub use U512.*
unfoldable pub use Flags.*
unfoldable pub use Refs.*
unfoldable pub use Keys.*
