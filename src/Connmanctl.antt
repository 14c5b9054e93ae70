-- ===== src/Connmanctl.antt =====
-- The example shell connmanctl (examples/connmanctl.cpp): it reads lines, calls the library's objects,
-- and prints what their callbacks report.
pub mod Words
pub mod Trim
pub mod Commands
pub mod Messages
pub mod Actions
pub mod Screen
pub mod Shell
pub mod Technologies
pub mod Tethering
pub mod Services
pub mod Loop
pub mod Allowed
pub mod TechRequests
pub mod Requests
pub mod Completion
pub mod Candidates
pub mod Session
pub mod Handover
pub mod Justified
pub mod Power
pub mod Connect
pub mod Passphrase
