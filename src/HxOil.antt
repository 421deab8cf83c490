-- ===== src/HxOil.antt =====
-- hx-oil, the directory editor: `pkgs/hx-oil/src/lib.rs`. Names and paths are lists of code points.
pub mod Types
pub mod Plan
pub mod Directory
pub mod Apply
pub mod Manifest
pub mod Marks
pub mod Plans
pub mod Snapshot
pub mod Sidecar
pub mod Transform
mod Tests
