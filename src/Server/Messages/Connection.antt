-- ===== src/Server/Messages/Connection.antt =====
-- The texts of the errors of internal/sshclient/client.go and exec.go, as `fmt.Errorf` makes them. The
-- text of an error of a library stands at the end.
use mcp_ssh_workspace.Common.{Bool, true, false, Bytes, codes, ◌++◌}
use mcp_ssh_workspace.Client.{ConnectError, no_auth_methods, dial_failed, sftp_failed, no_host}
use mcp_ssh_workspace.Client.Run.{
  RunError, not_connected, session_failed, stdin_failed, start_failed,
}

abbrev pub connect_message : ConnectError → Bytes
connect_message no_auth_methods =
    codes "no authentication methods available (provide SSH key, password, or run ssh-agent)"
connect_message (dial_failed address why) =
    codes "failed to connect to " ++ (address ++ (codes ": " ++ why))
connect_message (sftp_failed why) = codes "failed to initialize SFTP subsystem: " ++ why
connect_message no_host =
    codes "not connected to any remote SSH host: call 'remote_connect' with host and user first"

-- A daemon that does not start has a text of its own.
abbrev start_message : Bool → Bytes
start_message true = codes "failed to start background command: "
start_message false = codes "failed to start command: "

abbrev pub run_message : Bool → RunError → Bytes
run_message is_daemon (not_connected e) = connect_message e
run_message is_daemon (session_failed why) = codes "failed to create SSH session: " ++ why
run_message is_daemon (stdin_failed why) = codes "failed to open stdin pipe: " ++ why
run_message is_daemon (start_failed why) = start_message is_daemon ++ why
