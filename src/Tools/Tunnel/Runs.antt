-- ===== src/Tools/Tunnel/Runs.antt =====
-- The tool is one call of the tunnel manager, or none, and it answers.
use mcp_ssh_workspace.Common.{
  ℕ, ◌+◌, ◌^◌, ◌<◌, ◌≡◌, ◌≢◌, ap, ◌∙◌, inl, inr, refl, sym, Bool-cases, Option, none, some, List,
  [], ◌∷◌, Bytes, codes, eqb,
}
use mcp_ssh_workspace.Common.Int.{ℤ, pos, is_nonpos}
use mcp_ssh_workspace.Common.Result.{
  Result, ok, err, panic, ok-injective, err-ne-ok, panic-ne-ok, panic-ne-err,
}
use mcp_ssh_workspace.Common.Store.{fetch, fetch-alloc_new}
use mcp_ssh_workspace.Tunnels.{
  Tunnel, TunnelManager, TunnelError, tunnel_host, open_tunnel, close, open_bound, listen_address,
  add_tunnel,
}
use mcp_ssh_workspace.Tunnels.Runs.{opened, closed_one, Run, called, Run-never_panics}
use mcp_ssh_workspace.Tools.{Request, get_param_string, get_param_int, ToolResult}
use mcp_ssh_workspace.Tools.Tunnel.{
  TunnelReply, Answer, describe, open_reply, close_reply, open_action, close_action, tunnel_tool,
}

-- An answer, and a manager that calls lead to; no panic.
abbrev pub Leads : Answer → Type 0
Leads a = (r : ToolResult TunnelReply) × (tm' : TunnelManager) × (a ≡ ok (r, tm')) × Run tm'

stay : (tm : TunnelManager) (r : ToolResult TunnelReply) → Run tm → Leads (ok (r, tm))
stay tm r run = (r, tm, refl, run)

describe-Leads :
    (found : Option Tunnel) (t : Tunnel) (tm : TunnelManager)
    → found ≡ some t
    → Run tm
    → Leads (describe found tm)
describe-Leads none t tm e run = absurd cc
describe-Leads (some tun) t tm e run = stay tm _ run

module _ (listen : Bytes → Result Bytes (ℕ × ℕ)) (now : Bytes) (req : Request) (tm : TunnelManager)
    (run : Run tm) (room : tm.next_id + 1 < 2 ^ 63)
    (listens : (address : Bytes) → listen address ≢ panic) where
  -- The pointer that is answered is that of the new tunnel.
  bound_found :
      (local_port : ℤ) (host : Bytes) (remote_port : ℤ) (a : Result Bytes (ℕ × ℕ)) (p : ℕ)
      (tm' : TunnelManager)
      → open_bound local_port host remote_port now a tm ≡ ok (p, tm')
      → (t : Tunnel) × (fetch p tm'.heap ≡ some t)
  unfolding open_bound add_tunnel
  bound_found local_port host remote_port (ok (listener, assigned)) p tm' e =
      let same = ok-injective _ (p, tm') e in
      (_, ap (λ r. fetch r.0 r.1.heap) (sym same) ∙ fetch-alloc_new tm.heap _)
  bound_found local_port host remote_port (err why) p tm' e = absurd (err-ne-ok _ (p, tm') e)
  bound_found local_port host remote_port panic p tm' e = absurd (panic-ne-ok (p, tm') e)

  open_found :
      (local_port : ℤ) (host : Bytes) (remote_port : ℤ) (p : ℕ) (tm' : TunnelManager)
      → open_tunnel listen local_port host remote_port now tm ≡ ok (p, tm')
      → (t : Tunnel) × (fetch p tm'.heap ≡ some t)
  unfolding open_tunnel
  open_found local_port host remote_port p tm' e = elim (Bool-cases (is_nonpos remote_port)) [
    | inl zero ↦ absurd (err-ne-ok _ (p, tm') (rw zero at e))
    | inr more ↦
        bound_found local_port host remote_port (listen (listen_address local_port)) p tm'
          (rw more at e)
  ]

  bound_answers :
      (local_port : ℤ) (host : Bytes) (remote_port : ℤ) (a : Result Bytes (ℕ × ℕ))
      → a ≢ panic
      → open_bound local_port host remote_port now a tm ≢ panic
  unfolding open_bound
  bound_answers local_port host remote_port (ok (listener, assigned)) h e = panic-ne-ok _ (sym e)
  bound_answers local_port host remote_port (err why) h e = panic-ne-err _ (sym e)
  bound_answers local_port host remote_port panic h e = h refl

  open_answers :
      (local_port : ℤ) (host : Bytes) (remote_port : ℤ)
      → open_tunnel listen local_port host remote_port now tm ≢ panic
  unfolding open_tunnel
  open_answers local_port host remote_port e = elim (Bool-cases (is_nonpos remote_port)) [
    | inl zero ↦ panic-ne-err _ (sym (rw zero at e))
    | inr more ↦
        bound_answers local_port host remote_port (listen (listen_address local_port))
          (listens (listen_address local_port)) (rw more at e)
  ]

  opened-Leads :
      (local_port : ℤ) (host : Bytes) (remote_port : ℤ) (x : Result TunnelError (ℕ × TunnelManager))
      → open_tunnel listen local_port host remote_port now tm ≡ x
      → Leads (open_reply tm x)
  unfolding open_reply
  opened-Leads local_port host remote_port (ok (p, tm')) e =
      let (t, here) = open_found local_port host remote_port p tm' e in
      describe-Leads (fetch p tm'.heap) t tm' here
        (called tm tm' run (opened listen local_port host remote_port now tm tm' p room e))
  opened-Leads local_port host remote_port (err why) e = stay tm _ run
  opened-Leads local_port host remote_port panic e =
      absurd (open_answers local_port host remote_port e)

  closed-Leads :
      (id : Bytes) (x : Result TunnelError TunnelManager)
      → close id tm ≡ x
      → Leads (close_reply id tm x)
  unfolding close_reply
  closed-Leads id (ok tm') e = stay tm' _ (called tm tm' run (closed_one id tm tm' e))
  closed-Leads id (err why) e = stay tm _ run
  closed-Leads id panic e = absurd ((Run-never_panics tm run).0 id e)

  abbrev port_of : List Bytes → ℤ
  port_of keys = get_param_int req (pos 0) keys

  abbrev remote_port_of : ℤ
  remote_port_of = port_of (codes "remotePort" ∷ codes "RemotePort" ∷ [])

  abbrev local_port_of : ℤ
  local_port_of = port_of (codes "localPort" ∷ codes "LocalPort" ∷ [])

  abbrev remote_host_of : Bytes
  remote_host_of = tunnel_host (get_param_string req (codes "remoteHost" ∷ codes "RemoteHost" ∷ []))

  open-Leads : Leads (open_action listen now req tm)
  unfolding open_action
  open-Leads = elim (Bool-cases (is_nonpos remote_port_of)) [
    | inl e ↦ rw e (stay tm _ run)
    | inr e ↦ rw e (
        opened-Leads local_port_of remote_host_of remote_port_of
          (open_tunnel listen local_port_of remote_host_of remote_port_of now tm) refl)
  ]

  abbrev id_of : Bytes
  id_of = get_param_string req (codes "tunnelId" ∷ codes "TunnelId" ∷ codes "id" ∷ [])

  close-Leads : Leads (close_action listen now req tm)
  unfolding close_action
  close-Leads = elim (Bool-cases (eqb id_of [])) [
    | inl e ↦ rw e (stay tm _ run)
    | inr e ↦ rw e (closed-Leads id_of (close id_of tm) refl)
  ]

  abbrev action_of : Bytes
  action_of = get_param_string req (codes "action" ∷ codes "Action" ∷ [])

  tool-Leads : Leads (tunnel_tool listen now req tm)
  unfolding tunnel_tool
  tool-Leads = elim (Bool-cases (eqb action_of [])) [
    | inl e ↦ rw e (stay tm _ run)
    | inr a ↦ elim (Bool-cases (eqb action_of (codes "open"))) [
      | inl e ↦ rw (a, e) open-Leads
      | inr b ↦ elim (Bool-cases (eqb action_of (codes "close"))) [
        | inl e ↦ rw (a, b, e) close-Leads
        | inr c ↦ elim (Bool-cases (eqb action_of (codes "list"))) [
          | inl e ↦ rw (a, b, c, e) (stay tm _ run)
          | inr d ↦ rw (a, b, c, d) (stay tm _ run)
        ]
      ]
    ]
  ]

  -- Whatever the request, `remote_tunnel` answers, without a panic, and leaves a manager that calls of
  -- `open_tunnel` and `close` lead to, while the counter is far from its end and `net.Listen` does not
  -- panic. So every theorem on the runs of the manager holds behind the tool.
  pub tunnel_tool-Run :
      (r : ToolResult TunnelReply) × (tm' : TunnelManager) × (tunnel_tool listen now req tm
        ≡ ok (r, tm'))
      × Run tm'
  tunnel_tool-Run = tool-Leads
