-- ===== src/Groups.antt =====
-- spread-src-4.4.0/daemon/groups.c: the process groups of the clients.
pub mod SkipList
pub mod Orders
pub mod Totals
pub mod State
pub mod Names
pub mod Naming
pub mod Views
pub mod Handle
pub mod Depart
pub mod Invariant
pub mod Joining
pub mod Leaving
pub mod SetOrder
pub mod SetSums
pub mod Sets
pub mod Members
pub mod WellFormed
pub mod Join
pub mod Extract
pub mod Leave
pub mod Sweep
pub mod Kill
pub mod Change
pub mod Marking
pub mod Shrink
pub mod Transitional
pub mod Subtractive
pub mod Departures
pub mod Cascade
