-- ===== src/Tests.antt =====
-- Tests, and the theorems at concrete inputs.
mod Data
mod Parts
mod Calls
mod Transfers
mod Media
mod Sessions
mod Names
mod Steps
mod Shown
mod Captures
mod Requests
