-- ===== src/Tests.antt =====
-- The theorems at concrete inputs.
mod Serving
mod Sending
mod Connections
mod Settings
mod Clients
mod Transfers
mod Starting
mod Versions
mod Naming
mod Files
mod Running
mod Stalling
mod Turns
mod Crowd
