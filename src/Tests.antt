-- ===== src/Tests.antt =====
-- Concrete states, and the theorems at them.
mod Sorting
mod Reader
mod Writer
mod Servers
mod Parser
mod Pool
mod Sockets
mod Locks
mod Clients
