-- ===== src/Tunnels/Forward/Loop.antt =====
-- When the loop of a tunnel ends, and that its connections are closed.
use mcp_ssh_workspace.Common.{
  ℕ, false, Bool-cases, ◌≡◌, ◌⊎◌, inl, inr, refl, ap, true, Option, Option-cases, none, some, List,
  [], ◌∷◌, ◌++◌, Bytes, All, if◌then◌else◌,
}
use mcp_ssh_workspace.Common.Store.{fetch}
use mcp_ssh_workspace.Tunnels.{Tunnel, TunnelManager}
use mcp_ssh_workspace.Tunnels.Runs.{Run, Run-IsValid}
use mcp_ssh_workspace.Tunnels.Forward.{
  Accept, accepted, accept_failed, again, return, turn, follow, forward_loop, ConnCall, dial,
  copy_both, close_conn, remote_address, dialled, forward_conn,
}

-- An error of `Accept` ends the loop exactly if the tunnel was closed: what closes it is a call of
-- `close` or `close_all`, for which the loop looks between two calls. Otherwise it goes on.
pub turn_returns :
    (tm : TunnelManager)
    → Run tm
    → (p : ℕ) (t : Tunnel) → fetch p tm.heap ≡ some t
    → turn t accept_failed ≡ (if t.closed then return else again)
unfolding turn
turn_returns tm run p t found =
    let (stop, _) = (Run-IsValid tm run).in_step p t found in
    elim (Bool-cases t.closed) [ inl c ↦ rw c refl | inr c ↦ rw (stop, c) refl ]

-- Where `Accept` answers an error, the tunnel is not closed, and nor is its channel.
abbrev pub StillOpen : Tunnel × Accept → Type 0
StillOpen (t, accepted conn) = Unit {0}
StillOpen (t, accept_failed) = (t.closed ≡ false) × (t.stop_closed ≡ false)

abbrev pub accepted_in : List (Tunnel × Accept) → List ℕ
accepted_in [] = []
accepted_in ((t, accepted conn) ∷ more) = conn ∷ accepted_in more
accepted_in ((t, accept_failed) ∷ more) = accepted_in more

-- The loop serves every connection that was accepted, in order, and goes on after errors of `Accept`,
-- while the tunnel is open. The first error behind the closing of the tunnel makes it return, whatever
-- comes then.
pub forward_until_closed :
    (early : List (Tunnel × Accept)) (t : Tunnel) (late : List (Tunnel × Accept))
    → All StillOpen early
    → t.closed ≡ true
    → forward_loop (early ++ (t, accept_failed) ∷ late) ≡ (accepted_in early, true)
unfolding forward_loop follow turn
forward_until_closed [] t late still closed = rw closed refl
forward_until_closed ((u, accepted conn) ∷ early) t late (this, still) closed =
    ap (λ r. (conn ∷ r.0, r.1)) (forward_until_closed early t late still closed)
forward_until_closed ((u, accept_failed) ∷ early) t late (this, still) closed =
    let (not_closed, channel) = this in
    rw (not_closed, channel) (forward_until_closed early t late still closed)

-- Whatever the SSH side answers, the last thing done for a connection is to close it. Without a
-- client nothing else is done; and a connection to the remote address that was made is closed, behind
-- the copying and before that.
pub forward_conn_closes :
    (t : Tunnel) (local : ℕ) (client : Option ℕ) (answer : ℕ → Bytes → Option ℕ)
    → (calls : List ConnCall) × (forward_conn t local client answer
        ≡ calls ++ close_conn local ∷ [])
      × (((client ≡ none) × (calls ≡ []))
          ⊎ ((cli : ℕ) × (client ≡ some cli)
              × (answer cli (remote_address t) ≡ none)
              × (calls ≡ dial cli (remote_address t) ∷ []))
          ⊎ ((cli : ℕ) × (remote : ℕ) × (client ≡ some cli)
              × (answer cli (remote_address t) ≡ some remote)
              × (calls
                  ≡ dial cli (remote_address t) ∷ copy_both local remote ∷ close_conn remote ∷ [])))
unfolding forward_conn dialled
forward_conn_closes t local none answer = ([], refl, inl (refl, refl))
forward_conn_closes t local (some cli) answer =
    elim (Option-cases (answer cli (remote_address t))) [
      | inl e ↦ (dial cli (remote_address t) ∷ [], rw e refl, inr (inl (cli, refl, e, refl)))
      | inr (r, e) ↦ (
        dial cli (remote_address t) ∷ copy_both local r ∷ close_conn r ∷ [],
        rw e refl,
        inr (inr (cli, r, refl, e, refl)),
      )
    ]
