-- ===== src/Tunnels/Closing.antt =====
-- What closing one tunnel and closing all do, and what holds in every run of the manager.
use mcp_ssh_workspace.Common.{
  ℕ, zero, suc, ◌≤◌, ◌≡◌, refl, sym, ap, ◌∙◌, true, none, some, [], ◌∷◌, Bytes, eqb_refl, length,
  arith, Bool-cases, inl, inr,
}
use mcp_ssh_workspace.Common.Result.{ok, err}
use mcp_ssh_workspace.Common.Store.{fetch, modify, fetch-modify_same}
use mcp_ssh_workspace.Common.Dict.{Dict, lookup, erase, lookup-erase, length-erase_head}
use mcp_ssh_workspace.Tunnels.{
  Tunnel, TunnelManager, tunnel_not_found, set_closed, shut_tunnel, drop_tunnel, close_found, close,
  close_entries, close_all,
}
use mcp_ssh_workspace.Tunnels.Registry.{IsValid, none-ne-some}
use mcp_ssh_workspace.Tunnels.Dropping.{drop-IsValid}

module _ (tm : TunnelManager) (valid : IsValid tm) (id : Bytes) where
  abbrev after_drop : ℕ → TunnelManager
  after_drop p = record tm { tunnels = erase id tm.tunnels; heap = modify p set_closed tm.heap }

  drop_ok : (p : ℕ) → lookup id tm.tunnels ≡ some p → drop_tunnel id p tm ≡ ok (after_drop p)
  unfolding drop_tunnel shut_tunnel
  drop_ok p found =
      let (t, at_p, own, live) = valid.listed id p found in
      let (stop, _) = valid.in_step p t at_p in rw (at_p, live, stop ∙ live) refl

  close_ok : (p : ℕ) → lookup id tm.tunnels ≡ some p → close id tm ≡ ok (after_drop p)
  unfolding close close_found
  close_ok p found = rw found (drop_ok p found)

  missing :
      (tm' : TunnelManager)
      → lookup id tm'.tunnels ≡ none
      → close id tm' ≡ err (tunnel_not_found id)
  unfolding close close_found
  missing tm' none_left = rw none_left refl

  -- `close` of a tunnel of the map deletes it, closes its stop channel and its listener, and leaves
  -- the manager valid. A second `close` of it answers that there is no such tunnel.
  pub close_twice :
      (p : ℕ)
      → lookup id tm.tunnels ≡ some p
      → (tm' : TunnelManager) × (close id tm ≡ ok tm')
        × IsValid tm'
        × ((t : Tunnel) × (fetch p tm'.heap ≡ some t)
            × (t.stop_closed ≡ true)
            × (t.listener_closed ≡ true))
        × (close id tm' ≡ err (tunnel_not_found id))
  close_twice p found =
      let (t, at_p, _, _) = valid.listed id p found in
      (
        after_drop p,
        close_ok p found,
        drop-IsValid tm valid id p found,
        (set_closed t, fetch-modify_same p set_closed tm.heap t at_p, refl, refl),
        missing (after_drop p) (simp (lookup-erase, eqb_refl)),
      )

first_entry : (id : Bytes) (p : ℕ) (more : Dict ℕ) → lookup id ((id, p) ∷ more) ≡ some p
unfolding lookup
first_entry id p more = rw (eqb_refl id) refl

abbrev pub AllClosed : TunnelManager → Type 0
AllClosed tm =
    IsValid tm
    × (tm.tunnels ≡ [])
    × ((p : ℕ) (t : Tunnel)
        → fetch p tm.heap ≡ some t
        → (t.closed ≡ true) × (t.stop_closed ≡ true) × (t.listener_closed ≡ true))

none_left-AllClosed : (tm : TunnelManager) → IsValid tm → tm.tunnels ≡ [] → AllClosed tm
unfolding lookup
none_left-AllClosed tm valid empty = (valid, empty, all)
  where
    all :
        (p : ℕ) (t : Tunnel)
        → fetch p tm.heap ≡ some t
        → (t.closed ≡ true) × (t.stop_closed ≡ true) × (t.listener_closed ≡ true)
    all p t e = elim (Bool-cases t.closed) [
      | inl c ↦ let (stop, listener) = valid.in_step p t e in (c, stop ∙ c, listener ∙ c)
      | inr live ↦
          absurd (none-ne-some p (ap (λ m. lookup t.id m) (sym empty) ∙ valid.kept p t e live))
    ]

close_entries_lem :
    (fuel : ℕ) (entries : Dict ℕ) (tm : TunnelManager)
    → IsValid tm
    → tm.tunnels ≡ entries
    → length entries ≤ fuel
    → (tm' : TunnelManager) × (close_entries fuel entries tm ≡ ok tm') × AllClosed tm'
unfolding close_entries
close_entries_lem fuel [] tm valid same h = (tm, refl, none_left-AllClosed tm valid same)
close_entries_lem zero ((id, p) ∷ more) tm valid same h = absurd (omega arith)
close_entries_lem (suc fuel) ((id, p) ∷ more) tm valid same h =
    let found : lookup id tm.tunnels ≡ some p = ap (lookup id) same ∙ first_entry id p more in
    let shorter : length (erase id tm.tunnels) ≤ fuel =
      omega (arith, length-erase_head id p more, ap (λ m. length (erase id m)) same) in
    let (tm', done, closed) =
      close_entries_lem fuel (erase id tm.tunnels) (after_drop tm valid id p)
        (drop-IsValid tm valid id p found) refl shorter in
    (tm', rw (drop_ok tm valid id p found) done, closed)

-- `close_all` empties the map and closes every tunnel that was ever opened, without a panic.
pub close_all_closes :
    (tm : TunnelManager)
    → IsValid tm
    → (tm' : TunnelManager) × (close_all tm ≡ ok tm') × AllClosed tm'
unfolding close_all
close_all_closes tm valid =
    close_entries_lem (length tm.tunnels) tm.tunnels tm valid refl (omega arith)
