-- ===== src/Tunnels/Dropping.antt =====
-- Shutting a tunnel and deleting it from the map.
use mcp_ssh_workspace.Common.{
  ℕ, ◌≡◌, ◌≢◌, ◌⊎◌, refl, sym, ap, ◌∙◌, some, Bytes, eqb, eqb_iff, false, Bool-cases, inl, inr,
}
use mathlib.Core.Bool.{false≢true}
use native.Mathlib.Decide.{ℕ_discrete}
use mcp_ssh_workspace.Common.Store.{fetch, modify, fetch-modify_same, fetch-modify_other}
use mcp_ssh_workspace.Common.Dict.{lookup, erase, lookup-erase}
use mcp_ssh_workspace.Tunnels.{Tunnel, TunnelManager, set_closed}
use mcp_ssh_workspace.Tunnels.Registry.{IsValid, none-ne-some, some-injective}

-- Shutting a tunnel of the map keeps the manager valid.
module _ (tm : TunnelManager) (valid : IsValid tm) (id : Bytes) (p : ℕ)
    (found : lookup id tm.tunnels ≡ some p) where
  dropped : TunnelManager
  dropped = record tm { tunnels = erase id tm.tunnels; heap = modify p set_closed tm.heap }

  other_key :
      (k : Bytes) (q : ℕ)
      → lookup k dropped.tunnels ≡ some q
      → (eqb id k ≡ false) × (lookup k tm.tunnels ≡ some q)
  unfolding dropped
  other_key k q e = elim (Bool-cases (eqb id k)) [
    | inl h ↦ absurd (none-ne-some q (simp (lookup-erase, h) at e))
    | inr h ↦ (h, simp (lookup-erase, h) at e)
  ]

  -- Two keys do not share a tunnel.
  other_pointer : (k : Bytes) (q : ℕ) → eqb id k ≡ false → lookup k tm.tunnels ≡ some q → p ≢ q
  other_pointer k q other e same =
      let (t, at_p, own, _) = valid.listed id p found in
      let (u, at_q, own', _) = valid.listed k q e in
      let t_is_u : t ≡ u = some-injective t u (sym at_p ∙ ap (λ i. fetch i tm.heap) same ∙ at_q) in
      absurd (false≢true (sym other ∙ (eqb_iff id k).1 (sym own ∙ ap (λ v. v.id) t_is_u ∙ own')))

  listed-drop :
      (k : Bytes) (q : ℕ)
      → lookup k dropped.tunnels ≡ some q
      → (t : Tunnel) × (fetch q dropped.heap ≡ some t) × (t.id ≡ k) × (t.closed ≡ false)
  unfolding dropped
  listed-drop k q e =
      let (other, before) = other_key k q e in
      let (t, at_q, own, live) = valid.listed k q before in
      (
        t,
        fetch-modify_other p q set_closed tm.heap (other_pointer k q other before) ∙ at_q,
        own,
        live,
      )

  module _ (q : ℕ) (t : Tunnel) (e : fetch q dropped.heap ≡ some t) where
    -- A tunnel of the new heap is the one that was shut, or an old one.
    shut_or_old :
        ((p ≡ q) × (u : Tunnel) × (t ≡ set_closed u)) ⊎ ((p ≢ q) × (fetch q tm.heap ≡ some t))
    unfolding dropped
    shut_or_old = elim (ℕ_discrete p q) [
      | yes same ↦
          let (u, at_p, _, _) = valid.listed id p found in
          inl (
            same,
            u,
            some-injective t (set_closed u) (
                sym e
                ∙ ap (λ i. fetch i (modify p set_closed tm.heap)) (sym same)
                ∙ fetch-modify_same p set_closed tm.heap u at_p),
          )
      | no other ↦ inr (other, sym (fetch-modify_other p q set_closed tm.heap other) ∙ e)
    ]

    in_step-drop : (t.stop_closed ≡ t.closed) × (t.listener_closed ≡ t.closed)
    in_step-drop = elim shut_or_old [
      | inl (same, u, is) ↦ rw is (refl, refl)
      | inr (other, old) ↦ valid.in_step q t old
    ]

    kept-drop : t.closed ≡ false → lookup t.id dropped.tunnels ≡ some q
    unfolding dropped
    kept-drop live = elim shut_or_old [
      | inl (same, u, is) ↦ absurd (false≢true (sym live ∙ ap (λ v. v.closed) is))
      | inr (other, old) ↦
          let there = valid.kept q t old live in
          elim (Bool-cases (eqb id t.id)) [
            | inl h ↦ absurd (
                other (
                  some-injective p q
                    (sym found ∙ ap (λ k. lookup k tm.tunnels) ((eqb_iff id t.id).0 h) ∙ there)))
            | inr h ↦ simp (lookup-erase, h, there)
          ]
    ]

  pub drop-IsValid :
      IsValid (record tm { tunnels = erase id tm.tunnels; heap = modify p set_closed tm.heap })
  unfolding dropped
  drop-IsValid = record {
    counted = λ k q e. let (_, before) = other_key k q e in valid.counted k q before;
    listed = listed-drop;
    in_step = in_step-drop;
    kept = kept-drop;
  }
