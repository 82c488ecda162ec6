-- ===== src/Resp.antt =====
-- resp/: the Redis serialization protocol.
pub mod Structure
pub mod State
pub mod Reader
pub mod Parser
