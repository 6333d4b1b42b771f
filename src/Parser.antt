-- ===== src/Parser.antt =====
-- src/Parser.cpp and include/Parser.h: the state machine that reads responses from a BufferReader.
pub mod State
pub mod Monad
pub mod Start
pub mod Process
pub mod Calls
pub mod Steps
pub mod Items
pub mod Response
pub mod Spins
pub mod Retrieve
pub mod Value
pub mod Received
