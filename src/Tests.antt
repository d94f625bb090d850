-- ===== src/Tests.antt =====
-- Runs of the definitions on concrete inputs.
mod Paths
mod Suites
mod Indexes
mod Releases
mod Times
mod Settings
mod Alpine
mod Files
mod Runners
mod Copies
