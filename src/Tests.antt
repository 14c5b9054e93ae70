-- ===== src/Tests.antt =====
-- Runs at concrete inputs, with a small GVariant of their own.
pub mod Values
pub mod Services
pub mod Shutdown
pub mod Replies
pub mod Requests
pub mod Readings
pub mod Inputs
pub mod Blocks
mod Prints
mod Shell
mod Lifetimes
mod Histories
mod Passphrases
mod Types
pub mod Careless
mod Getters
mod Logs
mod Threads
mod Connects
mod Handovers
mod Lines
