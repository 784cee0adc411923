-- ===== src/Client/Closing.antt =====
-- What disconnecting and connecting to another host do.
use mcp_ssh_workspace.Common.{
  ◌≡◌, ◌≢◌, ◌⊎◌, inl, inr, refl, ap, ◌∙◌, true, Option, none, some, [], Bytes,
}
use mcp_ssh_workspace.Common.Int.{ℤ}
use mcp_ssh_workspace.Common.Result.{ok}
use mcp_ssh_workspace.Config.{Machine, resolve_host_config}
use mcp_ssh_workspace.Tunnels.{TunnelManager, close_all}
use mcp_ssh_workspace.Tunnels.Registry.{IsValid}
use mcp_ssh_workspace.Tunnels.Closing.{AllClosed, close_all_closes}
use mcp_ssh_workspace.Client.{
  Client, Network, ConnectError, is_connected, connect, close_handle, close, sudo_or_password,
  new_config, connect_to,
}
use mcp_ssh_workspace.Client.Connecting.{Settled, connect-Settled, connect-SameManagers}

module _ {W : Type 0} (m : Machine) (n : Network W) where
  module _ (c : Client) (valid : IsValid c.tunnel_mgr) (w : W) where
    abbrev pub closed_world : W
    closed_world =
        close_handle m n n.close_ssh c.ssh_client (close_handle m n n.close_sftp c.sftp_client w)

    close_ok :
        (tunnels : TunnelManager) × (close m n c w
          ≡ ok (record c { tunnel_mgr = tunnels }, closed_world))
        × AllClosed tunnels
    unfolding close
    close_ok =
        let (tunnels, done, closed) = close_all_closes c.tunnel_mgr valid in
        (tunnels, rw done refl, closed)

    -- `close` closes every tunnel, then the SFTP client, then the SSH client, without a panic. The
    -- client keeps both handles, so that it still counts as connected if it did before.
    pub close_keeps_handles :
        (c' : Client) × (close m n c w ≡ ok (c', closed_world))
        × AllClosed c'.tunnel_mgr
        × (is_connected c' ≡ is_connected c)
    unfolding is_connected
    close_keeps_handles =
        let (tunnels, done, closed) = close_ok in
        (record c { tunnel_mgr = tunnels }, done, closed, refl)

  -- The handles are those of the other client.
  abbrev pub SameHandles : Client → Client → Type 0
  SameHandles c d = (d.ssh_client ≡ c.ssh_client) × (d.sftp_client ≡ c.sftp_client)

  still_connected :
      (c d : Client) (r : Option ConnectError × Client × W)
      → SameHandles c d
      → Settled m n d r
      → ((r.0 ≡ none) × (is_connected r.1 ≡ true) × (r.1.current_cwd ≢ []))
        ⊎ ((why : ConnectError) × (r.0 ≡ some why) × SameHandles c r.1)
  still_connected c d r same (inl done) = inl done
  still_connected c d r (ssh, sftp) (inr (why, e, kept)) =
      inr (why, e, (ap (λ x. x.ssh_client) kept ∙ ssh, ap (λ x. x.sftp_client) kept ∙ sftp))

  module _ (host : Bytes) (port : ℤ) (user key_path password sudo_password : Bytes) where
    -- With a well-formed manager of the tunnels, `connect_to` does not panic, and leaves no tunnel
    -- open. If it answers no error, the client is connected and has a working directory. If it answers
    -- an error, the client has the two handles that it had before.
    pub connect_to_cases :
        (c : Client) (w : W)
        → IsValid c.tunnel_mgr
        → (r : Option ConnectError × Client × W) × (connect_to m n host port user key_path password
              sudo_password c w
            ≡ ok r)
          × AllClosed r.1.tunnel_mgr
          × (((r.0 ≡ none) × (is_connected r.1 ≡ true) × (r.1.current_cwd ≢ []))
              ⊎ ((why : ConnectError) × (r.0 ≡ some why) × SameHandles c r.1))
    unfolding connect_to
    connect_to_cases c w valid =
        let (tunnels, done, closed) = close_ok c valid w in
        let new_cfg =
          resolve_host_config m (new_config m n host port user key_path password sudo_password) in
        let d : Client = record c {
          tunnel_mgr = tunnels;
          cfg = new_cfg;
          current_cwd = new_cfg.work_dir;
          sudo_password = sudo_or_password m n sudo_password password;
        } in
        let r = connect m n d (closed_world c valid w) in
        (
          r,
          rw done refl,
          rw ((connect-SameManagers m n d (closed_world c valid w)).1) closed,
          still_connected c d r (refl, refl) (connect-Settled m n d (closed_world c valid w)),
        )

    -- Every tunnel is closed by calls of the manager, and the tasks stay.
    pub connect_to_managers :
        (c : Client) (w : W)
        → IsValid c.tunnel_mgr
        → (tunnels : TunnelManager) × (r : Option ConnectError × Client × W) × (close_all
              c.tunnel_mgr
            ≡ ok tunnels)
          × (connect_to m n host port user key_path password sudo_password c w ≡ ok r)
          × (r.1.tunnel_mgr ≡ tunnels)
          × (r.1.task_mgr ≡ c.task_mgr)
    unfolding connect_to close
    connect_to_managers c w valid =
        let (tunnels, done, closed) = close_all_closes c.tunnel_mgr valid in
        let new_cfg =
          resolve_host_config m (new_config m n host port user key_path password sudo_password) in
        let d : Client = record c {
          tunnel_mgr = tunnels;
          cfg = new_cfg;
          current_cwd = new_cfg.work_dir;
          sudo_password = sudo_or_password m n sudo_password password;
        } in
        let (tasks, kept) = connect-SameManagers m n d (closed_world c valid w) in
        (tunnels, connect m n d (closed_world c valid w), done, rw done refl, kept, tasks)

  pub close_managers :
      (c : Client) (w : W)
      → IsValid c.tunnel_mgr
      → (tunnels : TunnelManager) × (w' : W) × (close_all c.tunnel_mgr ≡ ok tunnels)
        × (close m n c w ≡ ok (record c { tunnel_mgr = tunnels }, w'))
  unfolding close
  close_managers c w valid =
      let (tunnels, done, closed) = close_all_closes c.tunnel_mgr valid in
      (tunnels, closed_world c valid w, done, rw done refl)
