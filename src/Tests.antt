-- ===== src/Tests.antt =====
-- Runs of the theorems at concrete inputs.
mod Bytes
mod Input
mod Output
mod Directory
mod Names
mod Shared
mod Threads
mod Access
mod Buffers
mod Texts
mod Documents
mod Retrieval
mod Sessions
