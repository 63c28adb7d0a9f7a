-- ===== src/Protocol.antt =====
-- spread-src-4.4.0/daemon/protocol.c: the token ring.
pub mod Fragment
pub mod State
pub mod Deliver
pub mod Send
pub mod Receive
pub mod Discard
pub mod Answer
pub mod Token
pub mod Unmoved
