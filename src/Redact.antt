-- ===== src/Redact.antt =====
-- redact: masks for texts, policies for the fields of messages, and the storage of protected fields.
pub mod Text
pub mod Policy
pub mod Rules
pub mod Context
pub mod Message
pub mod Storage
