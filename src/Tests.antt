-- ===== src/Tests.antt =====
-- Runs of the models at concrete inputs, one module for each part of the program.
pub mod Threads
pub mod Timers
pub mod Waits
pub mod Watchdogs
pub mod Links
pub mod Https
pub mod Wires
pub mod Containers
pub mod Peers
pub mod Buses
pub mod Allocators
