-- ===== src/Tests.antt =====
-- The theorems at concrete inputs.
mod Heaps
mod UserPages
mod Frames
mod Pages
mod Text
mod Screens
mod Start
mod Switches
mod Formats
mod Descriptors
mod Processes
mod Locks
