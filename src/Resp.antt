-- ===== src/Resp.antt =====
-- resp.h and resp.cpp: the Redis serialization protocol (RESP).
pub mod Command
pub mod Parser
pub mod Format
pub mod Reply
