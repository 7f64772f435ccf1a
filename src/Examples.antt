-- ===== src/Examples.antt =====
-- The theorems at concrete inputs.
mod Rows
mod Names
mod Releases
mod Messages
mod Requests
mod Sweeps
mod Leaders
mod Events
mod Sessions
mod Tenants
