-- ===== src/Tunnels/Registry.antt =====
-- The map and the heap of tunnels: what every run of the manager keeps.
use mcp_ssh_workspace.Common.{
  ℕ, ◌+◌, ◌^◌, ◌≤◌, ◌<◌, ◌≡◌, refl, sym, ap, ◌∙◌, Option, none, some, Bytes, drop, length, eqb,
  eqb_iff, eqb_refl, arith, false, Bool-cases, inl, inr,
}
use mcp_ssh_workspace.Common.Int.{ℤ}
use mcp_ssh_workspace.Common.Store.{fetch, fetch-alloc, fetch-alloc_old, fetch-alloc_new}
use mcp_ssh_workspace.Common.Dict.{lookup, lookup-insert}
use mcp_ssh_workspace.Text.Decimal.{format_int64-injective}
use mcp_ssh_workspace.Tunnels.{
  Tunnel, TunnelManager, new_tunnel_manager, tunnel_id, next, add_tunnel,
}

-- A tunnel is in the map, under its own identifier, exactly as long as it is not closed, and each
-- tunnel has its stop channel and its listener closed exactly if it is closed.
pub record IsValid (tm : TunnelManager) : Type 0 where
  pub counted :
      (id : Bytes) (p : ℕ)
      → lookup id tm.tunnels ≡ some p
      → (n : ℕ) × (id ≡ tunnel_id n) × (n ≤ tm.next_id)
  pub listed :
      (id : Bytes) (p : ℕ)
      → lookup id tm.tunnels ≡ some p
      → (t : Tunnel) × (fetch p tm.heap ≡ some t) × (t.id ≡ id) × (t.closed ≡ false)
  pub in_step :
      (p : ℕ) (t : Tunnel)
      → fetch p tm.heap ≡ some t
      → (t.stop_closed ≡ t.closed) × (t.listener_closed ≡ t.closed)
  pub kept :
      (p : ℕ) (t : Tunnel)
      → fetch p tm.heap ≡ some t
      → t.closed ≡ false
      → lookup t.id tm.tunnels ≡ some p

pub none-ne-some : {A : Type 0} → (a : A) → ◌≡◌ {A = Option A} none (some a) → ⊥
none-ne-some a e = cc

pub some-injective : {A : Type 0} → (a b : A) → ◌≡◌ {A = Option A} (some a) (some b) → a ≡ b
some-injective a b e = cc

pub new-IsValid : IsValid new_tunnel_manager
unfolding lookup fetch
new-IsValid = record {
  counted = λ k p e. absurd (none-ne-some p e);
  listed = λ k p e. absurd (none-ne-some p e);
  in_step = λ p t e. absurd (none-ne-some t e);
  kept = λ p t e. absurd (none-ne-some t e);
}

module _ (tm : TunnelManager) (valid : IsValid tm) (room : tm.next_id + 1 < 2 ^ 63) where
  next-suc : next tm.next_id ≡ tm.next_id + 1
  next-suc = omega arith

  abbrev new_id : Bytes
  new_id = tunnel_id (next tm.next_id)

  new_id-fresh : lookup new_id tm.tunnels ≡ none
  new_id-fresh = none_or (lookup (tunnel_id (next tm.next_id)) tm.tunnels) refl
    where
      none_or :
          (o : Option ℕ)
          → lookup (tunnel_id (next tm.next_id)) tm.tunnels ≡ o
          → lookup (tunnel_id (next tm.next_id)) tm.tunnels ≡ none
      none_or none e = e
      none_or (some p) e =
          let (n, same, le) = valid.counted _ p e in
          absurd (
            omega (
              arith,
              next-suc,
              format_int64-injective (next tm.next_id) n (omega (arith, next-suc)) (omega arith)
                  (ap (drop 4) same),
            ))

  module _ (listener assigned : ℕ) (host : Bytes) (remote_port : ℤ) (now : Bytes) where
    added : TunnelManager
    added = (add_tunnel listener assigned host remote_port now tm).1

    counted' :
        (id : Bytes) (p : ℕ)
        → lookup id added.tunnels ≡ some p
        → (n : ℕ) × (id ≡ tunnel_id n) × (n ≤ added.next_id)
    unfolding added add_tunnel
    counted' id p e = elim (Bool-cases (eqb (tunnel_id (next tm.next_id)) id)) [
      | inl h ↦ (next tm.next_id, sym ((eqb_iff (tunnel_id (next tm.next_id)) id).0 h), omega arith)
      | inr h ↦
          let (n, same, le) = valid.counted id p (simp (lookup-insert, h) at e) in
          (n, same, omega (arith, next-suc))
    ]

    listed' :
        (id : Bytes) (p : ℕ)
        → lookup id added.tunnels ≡ some p
        → (t : Tunnel) × (fetch p added.heap ≡ some t) × (t.id ≡ id) × (t.closed ≡ false)
    unfolding added add_tunnel
    listed' id p e = elim (Bool-cases (eqb (tunnel_id (next tm.next_id)) id)) [
      | inl h ↦
          let same : length tm.heap ≡ p = some-injective _ p (simp (lookup-insert, h) at e) in
          rw (sym same)
            (_, fetch-alloc_new tm.heap _, (eqb_iff (tunnel_id (next tm.next_id)) id).0 h, refl)
      | inr h ↦
          let (t, found, own, live) = valid.listed id p (simp (lookup-insert, h) at e) in
          (t, fetch-alloc_old p tm.heap t _ found, own, live)
    ]

    in_step' :
        (p : ℕ) (t : Tunnel)
        → fetch p added.heap ≡ some t
        → (t.stop_closed ≡ t.closed) × (t.listener_closed ≡ t.closed)
    unfolding added add_tunnel
    in_step' p t e = elim (fetch-alloc p tm.heap t _ e) [
      | inl old ↦ valid.in_step p t old
      | inr (here, same) ↦ rw same (refl, refl)
    ]

    kept' :
        (p : ℕ) (t : Tunnel)
        → fetch p added.heap ≡ some t
        → t.closed ≡ false
        → lookup t.id added.tunnels ≡ some p
    unfolding added add_tunnel
    kept' p t e live = elim (fetch-alloc p tm.heap t _ e) [
      | inl old ↦
          let there = valid.kept p t old live in
          elim (Bool-cases (eqb (tunnel_id (next tm.next_id)) t.id)) [
            | inl h ↦ absurd (
                none-ne-some p (
                  sym new_id-fresh
                  ∙ ap (λ k. lookup k tm.tunnels) ((eqb_iff (tunnel_id (next tm.next_id)) t.id).0 h)
                  ∙ there))
            | inr h ↦ simp (lookup-insert, h, there)
          ]
      | inr (here, same) ↦ rw (same, here) (simp (lookup-insert, eqb_refl))
    ]

    pub add-IsValid : IsValid (add_tunnel listener assigned host remote_port now tm).1
    unfolding added
    add-IsValid = record { counted = counted'; listed = listed'; in_step = in_step'; kept = kept' }
