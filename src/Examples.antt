-- ===== src/Examples.antt =====
-- The theorems at work on a small daemon: two queues, three downloads.
pub mod Data
mod Values
mod Clock
mod Ticks
mod Daemon
mod Sweeps
mod Single
mod Runs
mod Codes
mod Names
mod Members
