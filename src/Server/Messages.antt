-- ===== src/Server/Messages.antt =====
-- The texts of the errors that internal/sshclient makes.
pub mod Connection
pub mod Viewing
pub mod Editing
pub mod Writing
