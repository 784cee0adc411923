-- ===== src/Tunnels/Examples.antt =====
-- Runs of the code of internal/sshclient/tunnel.go.
use mcp_ssh_workspace.Common.{ℕ, ◌≡◌, ◌≢◌, refl, true, false, [], ◌∷◌, ◌++◌, Bytes, codes, arith}
use mcp_ssh_workspace.Common.Int.{pos}
use mcp_ssh_workspace.Common.Result.{Result, ok, panic}
use mcp_ssh_workspace.Tunnels.{
  Tunnel, TunnelManager, new_tunnel_manager, add_tunnel, open_bound, open_tunnel, close, close_all,
}
use mcp_ssh_workspace.Tunnels.Registry.{IsValid}
use mcp_ssh_workspace.Tunnels.Runs.{opened, Run, created, called, Run-IsValid, Run-never_panics}
use mcp_ssh_workspace.Tunnels.Closing.{AllClosed, close_all_closes}
use mcp_ssh_workspace.Tunnels.Forward.{accepted, accept_failed, turn, forward_loop}
use mcp_ssh_workspace.Tunnels.Forward.Loop.{forward_until_closed}

abbrev listen : Bytes → Result Bytes (ℕ × ℕ)
listen address = ok (4, 41000)

-- One tunnel is open.
abbrev one_tunnel : TunnelManager
one_tunnel = (add_tunnel 4 41000 [] (pos 80) (codes "now") new_tunnel_manager).1

abbrev the_tunnel : Tunnel
the_tunnel = record {
  id = codes "tun-1";
  local_port = 41000;
  remote_host = codes "127.0.0.1";
  remote_port = pos 80;
  created_at = codes "now";
  listener = 4;
  closed = false;
  stop_closed = false;
  listener_closed = false;
}

open-Run : Run one_tunnel
unfolding open_tunnel open_bound add_tunnel
open-Run = called new_tunnel_manager one_tunnel created (
    opened listen (pos 0) [] (pos 80) (codes "now") new_tunnel_manager one_tunnel 0 (omega arith)
      refl)

Run-IsValid_example : IsValid one_tunnel
Run-IsValid_example = Run-IsValid one_tunnel open-Run

Run-never_panics_example :
    ((id : Bytes) → close id one_tunnel ≢ panic) × (close_all one_tunnel ≢ panic)
Run-never_panics_example = Run-never_panics one_tunnel open-Run

abbrev shut : Tunnel
shut = record the_tunnel { closed = true; stop_closed = true; listener_closed = true }

forward_until_closed_example :
    forward_loop
      (((the_tunnel, accepted 9) ∷ (the_tunnel, accept_failed) ∷ []) ++ (shut, accept_failed) ∷ [])
    ≡ (9 ∷ [], true)
unfolding turn
forward_until_closed_example =
    forward_until_closed ((the_tunnel, accepted 9) ∷ (the_tunnel, accept_failed) ∷ []) shut []
      (tt, ((refl, refl), tt)) refl

close_all_closes_example : (tm' : TunnelManager) × (close_all one_tunnel ≡ ok tm') × AllClosed tm'
close_all_closes_example = close_all_closes one_tunnel (Run-IsValid one_tunnel open-Run)
