-- ===== src/Tests.antt =====
-- Runs of the theorems at concrete inputs.
mod Requests
mod Streams
mod Servers
mod Queues
mod Secrets
mod Logs
mod Routes
mod Tokens
mod Databases
mod Settings
mod Loops
mod Turns
