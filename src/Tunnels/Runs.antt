-- ===== src/Tunnels/Runs.antt =====
-- Every sequence of calls of the tunnel manager.
use mcp_ssh_workspace.Common.{
  ℕ, ◌+◌, ◌^◌, ◌<◌, ◌≡◌, ◌≢◌, sym, ap, ◌∙◌, Bytes, Option-cases, Bool-cases, inl, inr,
}
use mcp_ssh_workspace.Common.Int.{ℤ, is_nonpos}
use mcp_ssh_workspace.Common.Result.{
  Result, ok, err, panic, err-ne-ok, panic-ne-ok, panic-ne-err, ok-injective,
}
use mcp_ssh_workspace.Common.Dict.{lookup}
use mcp_ssh_workspace.Tunnels.{
  TunnelManager, new_tunnel_manager, open_bound, open_tunnel, close_found, close, close_all,
  listen_address, tunnel_not_found,
}
use mcp_ssh_workspace.Tunnels.Registry.{IsValid, new-IsValid, add-IsValid}
use mcp_ssh_workspace.Tunnels.Closing.{close_twice, close_all_closes}

-- A call that returns. The counter is far from 2^63 - 1.
pub data Step : TunnelManager → TunnelManager → Type 0 where
  opened :
      (listen : Bytes → Result Bytes (ℕ × ℕ)) (local_port : ℤ) (host : Bytes) (remote_port : ℤ)
      (now : Bytes) (tm tm' : TunnelManager) (p : ℕ)
      → tm.next_id + 1 < 2 ^ 63
      → open_tunnel listen local_port host remote_port now tm ≡ ok (p, tm')
      → Step tm tm'
  closed_one : (id : Bytes) (tm tm' : TunnelManager) → close id tm ≡ ok tm' → Step tm tm'
  closed_all : (tm tm' : TunnelManager) → close_all tm ≡ ok tm' → Step tm tm'

-- The managers that the calls lead to.
pub data Run : TunnelManager → Type 0 where
  created : Run new_tunnel_manager
  called : (tm tm' : TunnelManager) → Run tm → Step tm tm' → Run tm'

bound-IsValid :
    (local_port : ℤ) (host : Bytes) (remote_port : ℤ) (now : Bytes) (answer : Result Bytes (ℕ × ℕ))
    (tm tm' : TunnelManager) (p : ℕ)
    → IsValid tm
    → tm.next_id + 1 < 2 ^ 63
    → open_bound local_port host remote_port now answer tm ≡ ok (p, tm')
    → IsValid tm'
unfolding open_bound
bound-IsValid local_port host remote_port now (ok (listener, assigned)) tm tm' p valid room h =
    rw (sym (ap (λ r. r.1) (ok-injective _ (p, tm') h)))
      (add-IsValid tm valid room listener assigned host remote_port now)
bound-IsValid local_port host remote_port now (err why) tm tm' p valid room h =
    absurd (err-ne-ok _ (p, tm') h)
bound-IsValid local_port host remote_port now panic tm tm' p valid room h =
    absurd (panic-ne-ok (p, tm') h)

close-IsValid :
    (tm tm' : TunnelManager) (id : Bytes) → IsValid tm → close id tm ≡ ok tm' → IsValid tm'
unfolding close close_found
close-IsValid tm tm' id valid h = elim (Option-cases (lookup id tm.tunnels)) [
  | inl e ↦ absurd (err-ne-ok (tunnel_not_found id) tm' (rw e at h))
  | inr (p, e) ↦
      let (tm'', done, valid', _, _) = close_twice tm valid id p e in
      rw (ok-injective tm' tm'' (sym h ∙ done)) valid'
]

Step-IsValid : (tm tm' : TunnelManager) → Step tm tm' → IsValid tm → IsValid tm'
unfolding open_tunnel
Step-IsValid tm tm' (opened listen local_port host remote_port now _ _ p room h) valid =
    elim (Bool-cases (is_nonpos remote_port)) [
      | inl e ↦ absurd (err-ne-ok _ (p, tm') (rw e at h))
      | inr e ↦
          bound-IsValid local_port host remote_port now (listen (listen_address local_port)) tm tm'
            p valid room (rw e at h)
    ]
Step-IsValid tm tm' (closed_one id _ _ h) valid = close-IsValid tm tm' id valid h
Step-IsValid tm tm' (closed_all _ _ h) valid =
    let (tm'', done, closed) = close_all_closes tm valid in
    rw (ok-injective tm' tm'' (sym h ∙ done)) closed.0

-- Whatever is called, the map holds exactly the tunnels that are not closed, and each tunnel has
-- its listener and its stop channel closed exactly if it is closed itself.
pub Run-IsValid : (tm : TunnelManager) → Run tm → IsValid tm
Run-IsValid tm created = new-IsValid
Run-IsValid tm' (called tm _ run step) = Step-IsValid tm tm' step (Run-IsValid tm run)

-- Whatever was called before, neither `close` nor `close_all` panics: no stop channel is closed
-- twice, and no pointer of the map is `nil`.
pub Run-never_panics :
    (tm : TunnelManager) → Run tm → ((id : Bytes) → close id tm ≢ panic) × (close_all tm ≢ panic)
unfolding close close_found
Run-never_panics tm run = (one, all)
  where
    one : (id : Bytes) → close id tm ≢ panic
    one id h = elim (Option-cases (lookup id tm.tunnels)) [
      | inl e ↦ absurd (panic-ne-err (tunnel_not_found id) (sym (rw e at h)))
      | inr (p, e) ↦
          let (tm', done, _, _, _) = close_twice tm (Run-IsValid tm run) id p e in
          absurd (panic-ne-ok tm' (sym h ∙ done))
    ]

    all : close_all tm ≢ panic
    all h =
        let (tm', done, _) = close_all_closes tm (Run-IsValid tm run) in
        absurd (panic-ne-ok tm' (sym h ∙ done))
