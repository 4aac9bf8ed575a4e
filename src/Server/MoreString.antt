-- ===== src/Server/MoreString.antt =====
-- server/more_string.c: the helpers on C strings, a module for each family.
pub mod Query
pub mod Entity
pub mod Split
pub mod Line
pub mod Append
pub mod Fields
