-- ===== src/Queue.antt =====
-- queue: the in-process message queue.
pub mod Memory
