-- ===== src/Server/ConnectExamples.antt =====
-- A run of a request to connect.
use mcp_ssh_workspace.Common.{◌≡◌, refl, false, [], Bytes, codes, eqb, if◌then◌else◌}
use mcp_ssh_workspace.Common.Int.{ℤ}
use mcp_ssh_workspace.Common.Result.{ok}
use mcp_ssh_workspace.Config.{resolve_host_config, from_ssh_config, fill_defaults, addr}
use mcp_ssh_workspace.Text.Search.{has_prefix, split_on, join_on}
use mcp_ssh_workspace.Text.Path.{clean, join}
use mcp_ssh_workspace.Text.Decimal.{format, format_int64}
use mcp_ssh_workspace.Common.Dict.{lookup, erase}
use mcp_ssh_workspace.Client.{
  auth_methods, close, connect, dial_with, with_client, with_sftp, new_client,
}
use mcp_ssh_workspace.Client as Client
use mcp_ssh_workspace.Remote.Memory.{Host}
use mcp_ssh_workspace.Tunnels.{close_all, close_entries}
use mcp_ssh_workspace.Tools.{Request, get_param_string, get_param_int}
use mcp_ssh_workspace.Tools.Calls.{connect_to, remote_connect, required, connect_call, tool_call}
use mcp_ssh_workspace.Server.{Served}
use mcp_ssh_workspace.Server.Commands.{connect_reply, serve_connect}
use mcp_ssh_workspace.Server.Tools.{calls, execute, after_params, serve}
use mcp_ssh_workspace.Server.Serving.{start_server, started}
use mcp_ssh_workspace.Server.Connected.{Connected, connect_tool-Connected}
use mcp_ssh_workspace.Server.Examples.{outside, moment, first_state, remote, to_box}
use mcp_ssh_workspace.Server.FileExamples.{state_after, text_after}

abbrev value_of : Bytes → Bytes
value_of k =
    if eqb k (codes "host")
    then codes "h"
    else if eqb k (codes "user")
    then codes "u"
    else if eqb k (codes "password")
    then codes "pw"
    else []

abbrev request : Request
request = record {
  has = λ k. false;
  get_string = λ k d. value_of k;
  get_int = λ k d. d;
  get_bool = λ k d. d;
  get_string_slice = λ k d. d;
}

abbrev connected : Served Host Host
connected = serve outside moment (calls remote_connect) request first_state

connect_tool-Connected_example :
    (host : Bytes) × (port : ℤ) × (user : Bytes) × (key_path : Bytes) × (password : Bytes)
    × (sudo_password : Bytes) × (tool_call request remote_connect
        ≡ ok (connect_to host port user key_path password sudo_password))
    × Connected outside
        (text_after connected)
        []
        (state_after connected)
        host
        (state_after connected)
unfolding serve after_params execute tool_call connect_call required get_param_string get_param_int
    serve_connect connect_reply Client.connect_to close close_all close_entries resolve_host_config
    from_ssh_config fill_defaults addr has_prefix join clean split_on join_on format format_int64
    lookup erase start_server new_client connect dial_with with_client with_sftp auth_methods eqb
connect_tool-Connected_example =
    connect_tool-Connected outside (text_after connected) [] (state_after connected) moment request
      first_state (started to_box remote remote) refl
