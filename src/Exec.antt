-- ===== src/Exec.antt =====
-- internal/sshclient/exec.go: the wrapping of a command, and the reading of what it printed.
pub mod Wrap
pub mod Markers
pub mod Finish
pub mod Goroutines
pub mod Examples
