-- ===== src/Tests.antt =====
-- The theorems at concrete inputs.
pub mod Data
mod Protocol
mod Tables
mod Database
mod Commands
mod Locking
mod Hashing
mod Expiring
mod Commanding
mod Lists
mod Trees
mod Streams
mod Sets
mod Subscribing
mod StreamCommands
