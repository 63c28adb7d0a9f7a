-- ===== src/Tests.antt =====
-- Concrete inputs: the functions run on them, and the theorems applied to them.
pub mod Data
pub mod Ring
pub mod Packets
pub mod Tokens
pub mod Events
pub mod Members
pub mod Reps
pub mod Forming
pub mod Reading
pub mod Sending
pub mod Clients
