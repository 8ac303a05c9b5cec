-- ===== src/Tests.antt =====
-- Examples: the theorems at concrete archives, strings and schedules.
mod Data
mod Archives
mod Deltas
mod Patches
mod Updates
mod Creating
mod Digests
mod Extractor
mod Unpacking
