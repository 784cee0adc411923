-- ===== src/Tools/Tunnel.antt =====
-- The tool `remote_tunnel` of internal/tools/register.go.
pub mod Runs
use mcp_ssh_workspace.Common.{
  ℕ, ◌≡◌, Bool, true, false, Option, none, some, List, [], ◌∷◌, ◌++◌, Bytes, codes, eqb,
  if◌then◌else◌,
}
use mcp_ssh_workspace.Common.Int.{ℤ, pos, is_nonpos}
use mcp_ssh_workspace.Common.Result.{Result, ok, err, panic}
use mcp_ssh_workspace.Common.Store.{fetch}
use mcp_ssh_workspace.Text.Decimal.{format, format_int}
use mcp_ssh_workspace.Tunnels.{
  Tunnel, TunnelManager, TunnelError, remote_port_required, bind_failed, tunnel_not_found,
  tunnel_host, open_tunnel, close, list,
}
use mcp_ssh_workspace.Tools.{
  Request, get_param_string, get_param_int, ToolResult, text, json, error,
}

-- The values that are turned into JSON.
pub data TunnelReply : Type 0 where
  -- message tunnel access_url
  tunnel_opened : Bytes → Tunnel → Bytes → TunnelReply
  tunnels : List (Option Tunnel) → TunnelReply

-- What the tool answers, and the manager behind it. The third outcome is a panic.
abbrev pub Answer : Type 0
Answer = Result TunnelError (ToolResult TunnelReply × TunnelManager)

abbrev error_text : TunnelError → Bytes
error_text remote_port_required = codes "remotePort is required and must be > 0"
error_text (bind_failed port why) =
    codes "failed to bind local port " ++ (format_int port ++ (codes ": " ++ why))
error_text (tunnel_not_found id) = codes "tunnel " ++ (id ++ codes " not found")

abbrev opened_reply : Tunnel → TunnelReply
opened_reply tun =
    tunnel_opened
      (codes "Tunnel established: 127.0.0.1:"
        ++ (format tun.local_port
            ++ (codes " -> " ++ (tun.remote_host ++ (codes ":" ++ format_int tun.remote_port)))))
      tun (codes "http://127.0.0.1:" ++ format tun.local_port)

abbrev describe : Option Tunnel → TunnelManager → Answer
describe none tm = panic
describe (some tun) tm = ok (json (opened_reply tun), tm)

-- The tunnel stands behind the pointer that was answered.
unfoldable pub open_reply : TunnelManager → Result TunnelError (ℕ × TunnelManager) → Answer
open_reply tm (ok (p, tm')) = describe (fetch p tm'.heap) tm'
open_reply tm (err e) = ok (error (codes "Failed to open tunnel: " ++ error_text e), tm)
open_reply tm panic = panic

unfoldable pub close_reply : Bytes → TunnelManager → Result TunnelError TunnelManager → Answer
close_reply id tm (ok tm') =
    ok (text (codes "Tunnel " ++ (id ++ codes " closed successfully")), tm')
close_reply id tm (err e) = ok (error (codes "Failed to close tunnel: " ++ error_text e), tm)
close_reply id tm panic = panic

module _ (listen : Bytes → Result Bytes (ℕ × ℕ)) (now : Bytes) (req : Request)
    (tm : TunnelManager) where
  unfoldable pub open_action : Answer
  open_action =
      let remote_port = get_param_int req (pos 0) (codes "remotePort" ∷ codes "RemotePort" ∷ []) in
      let local_port = get_param_int req (pos 0) (codes "localPort" ∷ codes "LocalPort" ∷ []) in
      let remote_host =
        tunnel_host (get_param_string req (codes "remoteHost" ∷ codes "RemoteHost" ∷ [])) in
      if is_nonpos remote_port
      then ok (error (codes "remotePort is required and must be > 0 for 'open' action"), tm)
      else open_reply tm (open_tunnel listen local_port remote_host remote_port now tm)

  unfoldable pub close_action : Answer
  close_action =
      let id = get_param_string req (codes "tunnelId" ∷ codes "TunnelId" ∷ codes "id" ∷ []) in
      if eqb id []
      then ok (error (codes "tunnelId is required for 'close' action"), tm)
      else close_reply id tm (close id tm)

  unfoldable pub tunnel_tool : Answer
  tunnel_tool =
      let action = get_param_string req (codes "action" ∷ codes "Action" ∷ []) in
      if eqb action []
      then ok (error (codes "action is required"), tm)
      else if eqb action (codes "open")
      then open_action
      else if eqb action (codes "close")
      then close_action
      else if eqb action (codes "list")
      then ok (json (tunnels (list tm)), tm)
      else ok (error (codes "Unknown action: " ++ action), tm)
