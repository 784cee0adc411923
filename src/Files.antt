-- ===== src/Files.antt =====
-- internal/sshclient/sftp.go: the tools on remote files.
pub mod View
pub mod Replace
pub mod Examples
