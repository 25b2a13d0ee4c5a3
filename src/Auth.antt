-- ===== src/Auth.antt =====
-- auth: the tokens of users, the payload of a token, and authenticators of requests.
pub mod Token
pub mod Payload
pub mod Metadata
pub mod Hmac
pub mod Session
