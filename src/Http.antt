-- ===== src/Http.antt =====
-- The directory ui: the web server over the machines.
pub mod Server
pub mod Message
pub mod Parser
pub mod Reply
pub mod Handler
pub mod Connection
