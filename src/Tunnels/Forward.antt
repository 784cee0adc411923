-- ===== src/Tunnels/Forward.antt =====
-- `forwardLoop` of internal/sshclient/tunnel.go.
pub mod Loop
use mcp_ssh_workspace.Common.{
  ℕ, ◌≡◌, Bool, true, false, Option, none, some, List, [], ◌∷◌, ◌++◌, Bytes, codes, if◌then◌else◌,
}
use mcp_ssh_workspace.Common.Int.{ℤ}
use mcp_ssh_workspace.Text.Decimal.{format_int}
use mcp_ssh_workspace.Tunnels.{Tunnel}

-- What a call of `Accept` answers: a connection, or an error.
pub data Accept : Type 0 where
  accepted : ℕ → Accept
  accept_failed : Accept

-- What one turn of the loop does: it starts a goroutine for a connection, goes on, or returns.
pub data Turn : Type 0 where
  spawn : ℕ → Turn
  again : Turn
  return : Turn

-- `t` is the tunnel at the moment the loop looks at it.
unfoldable pub turn : Tunnel → Accept → Turn
turn t (accepted conn) = spawn conn
turn t accept_failed = if t.closed then return else if t.stop_closed then return else again

-- The connections that goroutines were started for, and whether the loop returned, with its
-- listener closed. It runs as long as `Accept` answers.
unfoldable pub follow : Turn → List ℕ × Bool → List ℕ × Bool
follow (spawn conn) (more, returned) = (conn ∷ more, returned)
follow again rest = rest
follow return rest = ([], true)

unfoldable pub forward_loop : List (Tunnel × Accept) → List ℕ × Bool
unfolding turn follow
forward_loop [] = ([], false)
forward_loop ((t, answer) ∷ more) = let rest = forward_loop more in follow (turn t answer) rest

-- What the goroutine of a connection asks the network library for, in this order.
pub data ConnCall : Type 0 where
  dial : ℕ → Bytes → ConnCall
  copy_both : ℕ → ℕ → ConnCall
  close_conn : ℕ → ConnCall

-- t.RemoteHost:t.RemotePort
abbrev pub remote_address : Tunnel → Bytes
remote_address t = t.remote_host ++ (b':' ∷ format_int t.remote_port)

unfoldable pub dialled : ℕ → ℕ → Bytes → Option ℕ → List ConnCall
dialled cli local address none = dial cli address ∷ close_conn local ∷ []
dialled cli local address (some remote) =
    dial cli address ∷ copy_both local remote ∷ close_conn remote ∷ close_conn local ∷ []

-- `client` is what the getter answers, and `answer` what the connection to the remote address does.
unfoldable pub forward_conn : Tunnel → ℕ → Option ℕ → (ℕ → Bytes → Option ℕ) → List ConnCall
unfolding dialled
forward_conn t local none answer = close_conn local ∷ []
forward_conn t local (some cli) answer =
    dialled cli local (remote_address t) (answer cli (remote_address t))
