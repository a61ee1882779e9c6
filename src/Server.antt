-- ===== src/Server.antt =====
-- The web server, server/server.py: its routes on the one anchor, and what they answer.
pub mod Responses
pub mod StatusText
pub mod Register
pub mod Site
pub mod Text
pub mod Unready
pub mod Pages
