-- ===== src/Client/Connecting.antt =====
-- What a connection leaves behind, whether it succeeds or fails.
use mcp_ssh_workspace.Common.{
  ℕ, ◌≡◌, ◌≢◌, ◌⊎◌, inl, inr, refl, sym, ◌∙◌, true, Bool-cases, Option, none, some, List, [], ◌∷◌,
  Bytes, codes, eqb, eqb-ne, if◌then◌else◌,
}
use mcp_ssh_workspace.Config.{Machine, addr}
use mcp_ssh_workspace.Client.{
  Client, AuthMethod, Dialled, connected, failed, Network, ConnectError, no_auth_methods,
  dial_failed, sftp_failed, no_host, is_connected, auth_methods, login_dir, with_sftp, with_client,
  dial_with, connect, check_alive, ensure_handles, ensure_connected,
}

module _ {W : Type 0} (m : Machine) (n : Network W) where
  -- A connection succeeded, and the client has both handles and a working directory; or it failed, and
  -- the client is what it was.
  abbrev pub Settled : Client → Option ConnectError × Client × W → Type 0
  Settled c r =
      ((r.0 ≡ none) × (is_connected r.1 ≡ true) × (r.1.current_cwd ≢ []))
      ⊎ ((why : ConnectError) × (r.0 ≡ some why) × (r.1 ≡ c))

  root_some : codes "/" ≢ []
  root_some e = cc

  some_dir :
      (cwd : Bytes) (home : Option Bytes) → (if eqb cwd [] then login_dir m n home else cwd) ≢ []
  some_dir cwd none e = elim (Bool-cases (eqb cwd [])) [
    | inl blank ↦ absurd (root_some (rw blank at e))
    | inr given ↦ absurd (eqb-ne cwd [] given (rw given at e))
  ]
  some_dir cwd (some home) e = elim (Bool-cases (eqb cwd [])) [
    | inl blank ↦ elim (Bool-cases (eqb home [])) [
      | inl no_home ↦ absurd (root_some (rw (blank, no_home) at e))
      | inr at_home ↦ absurd (eqb-ne home [] at_home (rw (blank, at_home) at e))
    ]
    | inr given ↦ absurd (eqb-ne cwd [] given (rw given at e))
  ]

  sftp-Settled :
      (client : ℕ) (c : Client) (answer : Dialled × W) → Settled c (with_sftp m n client c answer)
  unfolding with_sftp is_connected
  sftp-Settled client c (failed why, w) = inr (sftp_failed why, refl, refl)
  sftp-Settled client c (connected sftp_cli, w) =
      inl (refl, refl, some_dir c.current_cwd (n.getwd sftp_cli w))

  client-Settled : (c : Client) (answer : Dialled × W) → Settled c (with_client m n c answer)
  unfolding with_client
  client-Settled c (failed why, w) = inr (dial_failed (addr c.cfg) why, refl, refl)
  client-Settled c (connected client, w) = sftp-Settled client c (n.new_sftp client w)

  dial-Settled :
      (methods : List AuthMethod) (c : Client) (w : W) → Settled c (dial_with m n methods c w)
  unfolding dial_with
  dial-Settled [] c w = inr (no_auth_methods, refl, refl)
  dial-Settled (a ∷ methods) c w = client-Settled c (n.dial (addr c.cfg) c.cfg.user (a ∷ methods) w)

  -- Either `connect` succeeds, and the client has both handles and a working directory, or it answers
  -- an error, and the client is what it was before.
  pub connect-Settled : (c : Client) (w : W) → Settled c (connect m n c w)
  unfolding connect
  connect-Settled c w = dial-Settled (auth_methods m n c.cfg w) c w

  -- What a call may rely on.
  abbrev pub Ready : Client → Option ConnectError × Client × W → Type 0
  Ready c r = r.0 ≡ none → is_connected r.1 ≡ true

  Settled-Ready : (c : Client) (r : Option ConnectError × Client × W) → Settled c r → Ready c r
  Settled-Ready c r (inl (ok, ready, cwd)) e = ready
  Settled-Ready c r (inr (why, not_ok, same)) e = absurd (no_both why (sym e ∙ not_ok))
    where
      no_both : (why : ConnectError) → ◌≡◌ {A = Option ConnectError} none (some why) → ⊥
      no_both why h = cc

  alive-Ready :
      (home : Option Bytes) (c : Client) (w : W)
      → is_connected c ≡ true
      → Ready c (check_alive m n home c w)
  unfolding check_alive
  alive-Ready none c w here e = Settled-Ready c (connect m n c w) (connect-Settled c w) e
  alive-Ready (some home) c w here e = here

  handles-Ready :
      (ssh_client sftp_client : Option ℕ) (c : Client) (w : W)
      → c.ssh_client ≡ ssh_client
      → c.sftp_client ≡ sftp_client
      → Ready c (ensure_handles m n ssh_client sftp_client c w)
  unfolding ensure_handles
  handles-Ready none sftp_client c w h k e =
      Settled-Ready c (connect m n c w) (connect-Settled c w) e
  handles-Ready (some client) none c w h k e =
      Settled-Ready c (connect m n c w) (connect-Settled c w) e
  handles-Ready (some client) (some sftp_cli) c w h k e =
      alive-Ready (n.getwd sftp_cli w) c w (unfold is_connected in rw (h, k) refl) e

  -- If `ensure_connected` answers no error, the client has both handles, whether or not it had to
  -- connect anew; and a host was configured.
  pub ensure_connected-Ready :
      (c : Client) (w : W)
      → (ensure_connected m n c w).0 ≡ none
      → (is_connected (ensure_connected m n c w).1 ≡ true) × (c.cfg.host ≢ [])
  unfolding ensure_connected
  ensure_connected-Ready c w ok = elim (Bool-cases (eqb c.cfg.host [])) [
    | inl e ↦ absurd (not_ok (rw e at ok))
    | inr e ↦ (
      rw e (handles-Ready c.ssh_client c.sftp_client c w refl refl (rw e at ok)),
      eqb-ne c.cfg.host [] e,
    )
  ]
    where
      not_ok : ◌≡◌ {A = Option ConnectError} (some no_host) none → ⊥
      not_ok h = cc

  -- Neither the tasks nor the tunnels are touched.
  abbrev pub SameManagers : Client → Option ConnectError × Client × W → Type 0
  SameManagers c r = (r.1.task_mgr ≡ c.task_mgr) × (r.1.tunnel_mgr ≡ c.tunnel_mgr)

  sftp-SameManagers :
      (client : ℕ) (c : Client) (answer : Dialled × W)
      → SameManagers c (with_sftp m n client c answer)
  unfolding with_sftp
  sftp-SameManagers client c (failed why, w) = (refl, refl)
  sftp-SameManagers client c (connected sftp_cli, w) = (refl, refl)

  client-SameManagers :
      (c : Client) (answer : Dialled × W) → SameManagers c (with_client m n c answer)
  unfolding with_client
  client-SameManagers c (failed why, w) = (refl, refl)
  client-SameManagers c (connected client, w) = sftp-SameManagers client c (n.new_sftp client w)

  dial-SameManagers :
      (methods : List AuthMethod) (c : Client) (w : W) → SameManagers c (dial_with m n methods c w)
  unfolding dial_with
  dial-SameManagers [] c w = (refl, refl)
  dial-SameManagers (a ∷ methods) c w =
      client-SameManagers c (n.dial (addr c.cfg) c.cfg.user (a ∷ methods) w)

  pub connect-SameManagers : (c : Client) (w : W) → SameManagers c (connect m n c w)
  unfolding connect
  connect-SameManagers c w = dial-SameManagers (auth_methods m n c.cfg w) c w

  alive-SameManagers :
      (home : Option Bytes) (c : Client) (w : W) → SameManagers c (check_alive m n home c w)
  unfolding check_alive
  alive-SameManagers none c w = connect-SameManagers c w
  alive-SameManagers (some home) c w = (refl, refl)

  handles-SameManagers :
      (ssh_client sftp_client : Option ℕ) (c : Client) (w : W)
      → SameManagers c (ensure_handles m n ssh_client sftp_client c w)
  unfolding ensure_handles
  handles-SameManagers none sftp_client c w = connect-SameManagers c w
  handles-SameManagers (some client) none c w = connect-SameManagers c w
  handles-SameManagers (some client) (some sftp_cli) c w =
      alive-SameManagers (n.getwd sftp_cli w) c w

  pub ensure-SameManagers : (c : Client) (w : W) → SameManagers c (ensure_connected m n c w)
  unfolding ensure_connected
  ensure-SameManagers c w = elim (Bool-cases (eqb c.cfg.host [])) [
    | inl e ↦ rw e (refl, refl)
    | inr e ↦ rw e (handles-SameManagers c.ssh_client c.sftp_client c w)
  ]
