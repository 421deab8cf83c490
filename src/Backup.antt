-- ===== src/Backup.antt =====
-- The Radicle backup manifest, `modules/radicle-node/backup-manifest/src/main.rs`. Texts and paths
-- are lists of bytes.
pub mod Types
pub mod Hex
pub mod Numbers
pub mod Paths
pub mod Records
pub mod Walk
pub mod Format
pub mod Compare
pub mod Commands
pub mod Tests
