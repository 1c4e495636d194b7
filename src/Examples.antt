-- ===== src/Examples.antt =====
-- Runs at concrete inputs of what the other modules state, with an authorization set that is a list
-- of tags and values.
pub mod Keys
pub mod Tokens
pub mod Enforced
pub mod Storage
pub mod Prompts
pub mod Users
pub mod Blobs
pub mod Workers
pub mod Credentials
