-- ===== src/Server.antt =====
-- The web server of server/: text helpers, the hash table and the request handler.
pub mod MoreString
pub mod Key
pub mod Dictionary
pub mod Table
pub mod Connection
pub mod Redpin
