-- ===== src/Secure.antt =====
-- src/secure: the encrypted transport between two guardians.
pub mod Wire
pub mod Hex
pub mod Signing
pub mod Crypto
pub mod Manager
pub mod Equality
pub mod Handshake
pub mod Completion
pub mod Messages
pub mod HalfOpen
pub mod View
pub mod Window
pub mod Loops
pub mod Transport
pub mod Deliveries
pub mod InOrder
pub mod Drain
pub mod Outcomes
pub mod Calls
pub mod Few
pub mod Bounds
pub mod Sequence
pub mod Examples
mod Received
pub mod Agreement
