-- ===== src/Client.antt =====
-- internal/sshclient/client.go: the connection, the working directory and the sudo password.
pub mod Connecting
pub mod Closing
pub mod Run
pub mod Examples
use mcp_ssh_workspace.Common.{
  ℕ, ◌≡◌, Bool, true, false, not, ◌&&◌, Option, none, some, List, [], ◌∷◌, ◌++◌, Bytes, codes, eqb,
  if◌then◌else◌,
}
use mcp_ssh_workspace.Common.Int.{ℤ}
use mcp_ssh_workspace.Common.Result.{Result, ok, err, panic, bind}
use mcp_ssh_workspace.Config.{Config, Machine, resolve_host_config, addr}
use mcp_ssh_workspace.Tasks.{TaskManager, new_task_manager}
use mcp_ssh_workspace.Tunnels.{TunnelManager, TunnelError, new_tunnel_manager, close_all}

-- The clients of the SSH and SFTP libraries are handles; `none` is `nil`.
pub record Client : Type 0 where
  pub cfg : Config
  pub ssh_client : Option ℕ
  pub sftp_client : Option ℕ
  pub task_mgr : TaskManager
  pub tunnel_mgr : TunnelManager
  pub current_cwd : Bytes
  pub sudo_password : Bytes

pub data AuthMethod : Type 0 where
  agent_keys : AuthMethod
  public_key : ℕ → AuthMethod
  password_auth : Bytes → AuthMethod

pub data Dialled : Type 0 where
  connected : ℕ → Dialled
  failed : Bytes → Dialled

-- The calls of the SSH and SFTP libraries, on the state `W` of what is outside. `agent` says that the
-- socket of the agent can be dialled, and `private_key` what a key file parses to.
pub record Network (W : Type 0) : Type 0 where
  pub agent : Bytes → W → Bool
  pub private_key : Bytes → W → Option ℕ
  pub dial : Bytes → Bytes → List AuthMethod → W → Dialled × W
  pub new_sftp : ℕ → W → Dialled × W
  pub getwd : ℕ → W → Option Bytes
  pub close_ssh : ℕ → W → W
  pub close_sftp : ℕ → W → W

pub data ConnectError : Type 0 where
  no_auth_methods : ConnectError
  dial_failed : Bytes → Bytes → ConnectError
  sftp_failed : Bytes → ConnectError
  no_host : ConnectError

unfoldable pub set_sudo_password : Bytes → Client → Client
set_sudo_password password c = record c { sudo_password = password }

unfoldable pub has_sudo_password : Client → Bool
has_sudo_password c = not (eqb c.sudo_password [])

abbrev pub is_set : Option ℕ → Bool
is_set none = false
is_set (some handle) = true

unfoldable pub is_connected : Client → Bool
is_connected c = is_set c.ssh_client && is_set c.sftp_client

unfoldable pub set_cwd : Bytes → Client → Client
set_cwd new_cwd c = record c { current_cwd = new_cwd }

module _ {W : Type 0} (m : Machine) (n : Network W) where
  abbrev agent_method : Config → W → List AuthMethod
  agent_method cfg w =
      let sock = m.getenv (codes "SSH_AUTH_SOCK") in
      if cfg.use_agent && (not (eqb sock []) && n.agent sock w) then agent_keys ∷ [] else []

  abbrev key_method : Option ℕ → List AuthMethod
  key_method none = []
  key_method (some signer) = public_key signer ∷ []

  -- In the order in which the SSH library tries them.
  unfoldable pub auth_methods : Config → W → List AuthMethod
  auth_methods cfg w =
      agent_method cfg w
      ++ ((if not (eqb cfg.key_path []) then key_method (n.private_key cfg.key_path w) else [])
          ++ (if not (eqb cfg.password []) then password_auth cfg.password ∷ [] else []))

  abbrev login_dir : Option Bytes → Bytes
  login_dir none = codes "/"
  login_dir (some home) = if not (eqb home []) then home else codes "/"

  unfoldable pub with_sftp : ℕ → Client → Dialled × W → Option ConnectError × Client × W
  with_sftp client c (failed why, w) = (some (sftp_failed why), c, n.close_ssh client w)
  with_sftp client c (connected sftp_cli, w) = (
    none,
    record c {
      ssh_client = some client;
      sftp_client = some sftp_cli;
      current_cwd = if eqb c.current_cwd [] then login_dir (n.getwd sftp_cli w) else c.current_cwd;
    },
    w,
  )

  unfoldable pub with_client : Client → Dialled × W → Option ConnectError × Client × W
  unfolding with_sftp
  with_client c (failed why, w) = (some (dial_failed (addr c.cfg) why), c, w)
  with_client c (connected client, w) = with_sftp client c (n.new_sftp client w)

  unfoldable pub dial_with : List AuthMethod → Client → W → Option ConnectError × Client × W
  unfolding with_client
  dial_with [] c w = (some no_auth_methods, c, w)
  dial_with (a ∷ methods) c w = with_client c (n.dial (addr c.cfg) c.cfg.user (a ∷ methods) w)

  unfoldable pub connect : Client → W → Option ConnectError × Client × W
  unfolding dial_with
  connect c w = dial_with (auth_methods c.cfg w) c w

  -- The connection is tried out by `Getwd`.
  unfoldable pub check_alive : Option Bytes → Client → W → Option ConnectError × Client × W
  unfolding connect
  check_alive none c w = connect c w
  check_alive (some home) c w = (none, c, w)

  unfoldable pub ensure_handles :
      Option ℕ → Option ℕ → Client → W → Option ConnectError × Client × W
  unfolding check_alive
  ensure_handles none sftp_client c w = connect c w
  ensure_handles (some client) none c w = connect c w
  ensure_handles (some client) (some sftp_cli) c w = check_alive (n.getwd sftp_cli w) c w

  unfoldable pub ensure_connected : Client → W → Option ConnectError × Client × W
  unfolding ensure_handles
  ensure_connected c w =
      if eqb c.cfg.host []
      then (some no_host, c, w)
      else ensure_handles c.ssh_client c.sftp_client c w

  abbrev close_handle : (ℕ → W → W) → Option ℕ → W → W
  close_handle close none w = w
  close_handle close (some handle) w = close handle w

  -- The handles stay where they are.
  unfoldable pub close : Client → W → Result TunnelError (Client × W)
  close c w = bind (close_all c.tunnel_mgr) (λ tunnels. ok (
    record c { tunnel_mgr = tunnels },
    close_handle n.close_ssh c.ssh_client (close_handle n.close_sftp c.sftp_client w),
  ))

  abbrev sudo_or_password : Bytes → Bytes → Bytes
  sudo_or_password sudo_password password =
      if eqb sudo_password [] && not (eqb password []) then password else sudo_password

  -- host port user key_path password sudo_password
  abbrev new_config : Bytes → ℤ → Bytes → Bytes → Bytes → Bytes → Config
  new_config host port user key_path password sudo_password = record {
    host = host;
    port = port;
    user = user;
    key_path = key_path;
    password = password;
    sudo_password = sudo_or_password sudo_password password;
    work_dir = [];
    use_agent = true;
    known_hosts = [];
  }

  unfoldable pub connect_to :
      Bytes
      → ℤ
      → Bytes
      → Bytes
      → Bytes
      → Bytes
      → Client
      → W
      → Result TunnelError (Option ConnectError × Client × W)
  unfolding close connect
  connect_to host port user key_path password sudo_password c w =
      let new_cfg =
        resolve_host_config m (new_config host port user key_path password sudo_password) in
      bind (close c w) (λ (c', w'). ok (
        connect
          (record c' {
            cfg = new_cfg;
            current_cwd = new_cfg.work_dir;
            sudo_password = sudo_or_password sudo_password password;
          })
          w'))

  abbrev pub initial_client : Config → Client
  initial_client cfg = record {
    cfg = cfg;
    ssh_client = none;
    sftp_client = none;
    task_mgr = new_task_manager;
    tunnel_mgr = new_tunnel_manager;
    current_cwd = cfg.work_dir;
    sudo_password = cfg.sudo_password;
  }

  -- A connection that fails is only reported.
  unfoldable pub new_client : Config → W → Client × W
  unfolding connect
  new_client cfg w =
      let (_, c', w') = connect (initial_client cfg) w in
      if not (eqb cfg.host []) then (c', w') else (initial_client cfg, w)
