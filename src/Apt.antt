-- ===== src/Apt.antt =====
-- internal/apt: the APT repository runner and its metadata parsers.
pub mod Checksums
pub mod ByHash
pub mod History
pub mod Control
pub mod Packages
pub mod Sources
pub mod Signed
pub mod Release
pub mod Select
pub mod Resolved
pub mod Indexes
pub mod Runner
