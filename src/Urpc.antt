-- ===== src/Urpc.antt =====
-- src/urpc: the custom binary protocol.
pub mod Commands
pub mod Cursor
pub mod Frame
pub mod Writing
pub mod Readers
pub mod Lengths
pub mod Framing
pub mod Checking
pub mod RoundTrip
pub mod Reading
mod Tests
