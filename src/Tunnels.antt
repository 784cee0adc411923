-- ===== src/Tunnels.antt =====
-- internal/sshclient/tunnel.go: local ports that are forwarded through the SSH connection.
pub mod Registry
pub mod Dropping
pub mod Closing
pub mod Runs
pub mod Forward
pub mod Examples
use mcp_ssh_workspace.Common.{
  ℕ, zero, suc, ◌+◌, ◌%◌, ◌^◌, ◌≡◌, Bool, true, false, Option, none, some, List, [], ◌∷◌, ◌++◌,
  Bytes, codes, eqb, if◌then◌else◌, length, map,
}
use mcp_ssh_workspace.Common.Int.{ℤ, is_nonpos}
use mcp_ssh_workspace.Common.Result.{Result, ok, err, panic, bind}
use mcp_ssh_workspace.Common.Store.{fetch, alloc, modify}
use mcp_ssh_workspace.Common.Dict.{Dict, lookup, insert, erase, values}
use mcp_ssh_workspace.Text.Decimal.{format_int, format_int64}

-- A listener is a handle of the network library. `stop_closed` says that `stopChan` was closed, and
-- `listener_closed` that the listener was.
pub record Tunnel : Type 0 where
  pub id : Bytes
  pub local_port : ℕ
  pub remote_host : Bytes
  pub remote_port : ℤ
  pub created_at : Bytes
  pub listener : ℕ
  pub closed : Bool
  pub stop_closed : Bool
  pub listener_closed : Bool

-- The map holds pointers into the heap. The heap keeps the tunnels that were deleted from the map,
-- since the goroutine that forwards holds them on.
pub record TunnelManager : Type 0 where
  pub tunnels : Dict ℕ
  pub next_id : ℕ
  pub heap : List Tunnel

abbrev pub new_tunnel_manager : TunnelManager
new_tunnel_manager = record { tunnels = []; next_id = 0; heap = [] }

pub data TunnelError : Type 0 where
  remote_port_required : TunnelError
  bind_failed : ℤ → Bytes → TunnelError
  tunnel_not_found : Bytes → TunnelError

abbrev pub tunnel_id : ℕ → Bytes
tunnel_id n = codes "tun-" ++ format_int64 n

-- `nextID.Add(1)` on an `int64`
abbrev pub next : ℕ → ℕ
next n = (n + 1) % 2 ^ 64

abbrev pub listen_address : ℤ → Bytes
listen_address local_port = codes "127.0.0.1:" ++ format_int local_port

abbrev pub tunnel_host : Bytes → Bytes
tunnel_host remote_host = if eqb remote_host [] then codes "127.0.0.1" else remote_host

-- What the manager is once the listener is bound.
unfoldable pub add_tunnel : ℕ → ℕ → Bytes → ℤ → Bytes → TunnelManager → ℕ × TunnelManager
add_tunnel listener assigned_local_port remote_host remote_port now tm =
    let id_num = next tm.next_id in
    let t : Tunnel = record {
      id = tunnel_id id_num;
      local_port = assigned_local_port;
      remote_host = tunnel_host remote_host;
      remote_port = remote_port;
      created_at = now;
      listener = listener;
      closed = false;
      stop_closed = false;
      listener_closed = false;
    } in
    (
      length tm.heap,
      record {
        tunnels = insert (tunnel_id id_num) (length tm.heap) tm.tunnels;
        next_id = id_num;
        heap = alloc tm.heap t;
      },
    )

unfoldable pub open_bound :
    ℤ
    → Bytes
    → ℤ
    → Bytes
    → Result Bytes (ℕ × ℕ)
    → TunnelManager
    → Result TunnelError (ℕ × TunnelManager)
open_bound local_port remote_host remote_port now (ok (listener, assigned)) tm =
    ok (add_tunnel listener assigned remote_host remote_port now tm)
open_bound local_port remote_host remote_port now (err why) tm = err (bind_failed local_port why)
open_bound local_port remote_host remote_port now panic tm = panic

-- `listen` is `net.Listen("tcp", _)`, which answers a listener with the port it was given. The
-- result is the pointer to the new tunnel.
unfoldable pub open_tunnel :
    (Bytes → Result Bytes (ℕ × ℕ))
    → ℤ
    → Bytes
    → ℤ
    → Bytes
    → TunnelManager
    → Result TunnelError (ℕ × TunnelManager)
unfolding open_bound
open_tunnel listen local_port remote_host remote_port now tm =
    if is_nonpos remote_port
    then err remote_port_required
    else open_bound local_port remote_host remote_port now (listen (listen_address local_port)) tm

abbrev pub set_closed : Tunnel → Tunnel
set_closed t = record t { closed = true; stop_closed = true; listener_closed = true }

-- if t.closed.CompareAndSwap(false, true) { close(t.stopChan); t.listener.Close() }
-- Closing a channel twice panics, and so does a `nil` pointer.
unfoldable pub shut_tunnel : ℕ → Option Tunnel → List Tunnel → Result TunnelError (List Tunnel)
shut_tunnel p none heap = panic
shut_tunnel p (some t) heap =
    if t.closed then ok heap else if t.stop_closed then panic else ok (modify p set_closed heap)

-- The tunnel is shut, and deleted from the map.
unfoldable pub drop_tunnel : Bytes → ℕ → TunnelManager → Result TunnelError TunnelManager
unfolding shut_tunnel
drop_tunnel id p tm =
    bind (shut_tunnel p (fetch p tm.heap) tm.heap)
      (λ heap. ok (record tm { tunnels = erase id tm.tunnels; heap = heap }))

unfoldable pub close_found : Bytes → Option ℕ → TunnelManager → Result TunnelError TunnelManager
unfolding drop_tunnel
close_found id none tm = err (tunnel_not_found id)
close_found id (some p) tm = drop_tunnel id p tm

unfoldable pub close : Bytes → TunnelManager → Result TunnelError TunnelManager
unfolding close_found
close id tm = close_found id (lookup id tm.tunnels) tm

-- Go leaves the order open.
unfoldable pub list : TunnelManager → List (Option Tunnel)
list tm = map (λ p. fetch p tm.heap) (values tm.tunnels)

-- The loop takes entries of the map until none is left, each of which it deletes, so the number of
-- entries is fuel enough. Go leaves the order open.
unfoldable pub close_entries : ℕ → Dict ℕ → TunnelManager → Result TunnelError TunnelManager
unfolding drop_tunnel
close_entries fuel [] tm = ok tm
close_entries zero ((id, p) ∷ more) tm = ok tm
close_entries (suc fuel) ((id, p) ∷ more) tm =
    bind (drop_tunnel id p tm) (λ tm'. close_entries fuel tm'.tunnels tm')

unfoldable pub close_all : TunnelManager → Result TunnelError TunnelManager
unfolding close_entries
close_all tm = close_entries (length tm.tunnels) tm.tunnels tm
