-- ===== src/Pool.antt =====
-- src/ConnectionPool.cpp and include/ConnectionPool.h.
pub mod State
pub mod Requests
pub mod Dispatch
pub mod Extends
pub mod Kept
pub mod Alive
pub mod Routes
pub mod Commands
pub mod KeyCommands
pub mod Retrievals
pub mod Changes
pub mod Collect
pub mod Setup
pub mod Poll
pub mod Wait
pub mod Wire
pub mod Shares
