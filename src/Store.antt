-- ===== src/Store.antt =====
-- src/store/mod.rs and src/composed_bytes.rs.
pub mod Blocks
pub mod Composed
pub mod Wrapper
pub mod Format
pub mod Index
pub mod BigEndian
mod Tests
