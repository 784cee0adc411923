-- ===== src/Config.antt =====
-- internal/config/config.go: where the settings of a connection come from.
pub mod Resolve
pub mod Argument
pub mod Examples
use mcp_ssh_workspace.Common.{
  ℕ, zero, suc, ◌≡◌, Bool, true, false, not, ◌&&◌, Option, none, some, List, [], ◌∷◌, ◌++◌, Bytes,
  codes, eqb, drop, if◌then◌else◌,
}
use mcp_ssh_workspace.Common.Int.{ℤ, pos, negsuc}
use mcp_ssh_workspace.Text.Decimal.{format_int}
use mcp_ssh_workspace.Text.Scan.{atoi}
use mcp_ssh_workspace.Text.Search.{has_prefix, index, split_n2}
use mcp_ssh_workspace.Text.Path.{join}

pub record Config : Type 0 where
  pub host : Bytes
  pub port : ℤ
  pub user : Bytes
  pub key_path : Bytes
  pub password : Bytes
  pub sudo_password : Bytes
  pub work_dir : Bytes
  pub use_agent : Bool
  pub known_hosts : Bytes

-- What the program sees of its machine: the environment, the home directory, the file
-- `~/.ssh/config` if it opens and the library decodes it, and which files exist. The library
-- answers a lookup of a key under an alias with a text, which is empty if there is none, or with an
-- error.
pub record Machine : Type 0 where
  pub getenv : Bytes → Bytes
  pub home_dir : Bytes
  pub ssh_config : Option (Bytes → Bytes → Option Bytes)
  pub exists : Bytes → Bool

abbrev pub is_zero : ℤ → Bool
is_zero (pos zero) = true
is_zero (pos (suc n)) = false
is_zero (negsuc n) = false

-- A lookup counts if it answers no error and a text that is not empty.
abbrev pub or_found : Bytes → Option Bytes → Bytes
or_found v none = v
or_found v (some found) = if eqb found [] then v else found

-- `~/` stands for the home directory.
abbrev pub expand_home : Machine → Bytes → Bytes
expand_home m key = if has_prefix key (codes "~/") then join m.home_dir (drop 2 key) else key

abbrev or_int : ℤ → Option ℤ → ℤ
or_int v none = v
or_int v (some n) = n

abbrev pub found_port : ℤ → Option Bytes → ℤ
found_port v none = v
found_port v (some text) = if eqb text [] then v else or_int v (atoi text)

abbrev pub found_key : Machine → Bytes → Option Bytes → Bytes
found_key m v none = v
found_key m v (some key) = if eqb key [] then v else expand_home m key

-- The part that reads `~/.ssh/config`. After the first line, the host is the one that `HostName`
-- gave, and the other keys are looked up under it.
unfoldable pub from_ssh_config : Machine → Option (Bytes → Bytes → Option Bytes) → Config → Config
from_ssh_config m none cfg = cfg
from_ssh_config m (some look_up) cfg =
    let host' = or_found cfg.host (look_up cfg.host (codes "HostName")) in
    record cfg {
      host = host';
      user = if eqb cfg.user [] then or_found cfg.user (look_up host' (codes "User")) else cfg.user;
      port =
          if is_zero cfg.port then found_port cfg.port (look_up host' (codes "Port")) else cfg.port;
      key_path =
          if eqb cfg.key_path []
          then found_key m cfg.key_path (look_up host' (codes "IdentityFile"))
          else cfg.key_path;
    }

abbrev pub default_user : Machine → Bytes
default_user m = let u = m.getenv (codes "USER") in if not (eqb u []) then u else codes "root"

abbrev pub key_file : Machine → Bytes → Bytes
key_file m name = join m.home_dir (codes ".ssh/" ++ name)

abbrev pub default_key : Machine → Bytes
default_key m =
    if m.exists (key_file m (codes "id_ed25519"))
    then key_file m (codes "id_ed25519")
    else if m.exists (key_file m (codes "id_rsa"))
    then key_file m (codes "id_rsa")
    else if m.exists (key_file m (codes "id_ecdsa"))
    then key_file m (codes "id_ecdsa")
    else []

-- The part behind it, which fills in the defaults.
unfoldable pub fill_defaults : Machine → Config → Config
fill_defaults m cfg =
    let key = expand_home m cfg.key_path in
    record cfg {
      port = if is_zero cfg.port then pos 22 else cfg.port;
      user = if eqb cfg.user [] then default_user m else cfg.user;
      key_path =
          if eqb key [] && (eqb cfg.password [] && eqb (m.getenv (codes "SSH_AUTH_SOCK")) [])
          then default_key m
          else key;
    }

unfoldable pub resolve_host_config : Machine → Config → Config
unfolding from_ssh_config fill_defaults
resolve_host_config m cfg = fill_defaults m (from_ssh_config m m.ssh_config cfg)

abbrev found : Option ℕ → Bool
found none = false
found (some i) = true

abbrev contains_at : Bytes → Bool
contains_at arg = found (index arg (codes "@"))

abbrev from_parts : Config → List Bytes → Config
from_parts cfg (user ∷ host ∷ more) = record cfg {
  user = if eqb cfg.user [] then user else cfg.user;
  host = host;
}
from_parts cfg (host ∷ []) = cfg
from_parts cfg [] = cfg

-- The host and the user from the first argument that is not a flag.
unfoldable pub from_argument : Config → List Bytes → Config
unfolding index split_n2
from_argument cfg [] = cfg
from_argument cfg (arg ∷ args) =
    if contains_at arg then from_parts cfg (split_n2 arg (codes "@")) else record cfg { host = arg }

-- The settings that `flag.Parse` starts from.
abbrev pub flag_defaults : Machine → Config
flag_defaults m = record {
  host = m.getenv (codes "SSH_HOST");
  port = pos 0;
  user = m.getenv (codes "SSH_USER");
  key_path = m.getenv (codes "SSH_KEY");
  password = m.getenv (codes "SSH_PASSWORD");
  sudo_password = m.getenv (codes "SSH_SUDO_PASSWORD");
  work_dir = m.getenv (codes "SSH_WORKDIR");
  use_agent = true;
  known_hosts = [];
}

-- `parse_flags` is `flag.Parse`: it overwrites the settings that the command line names, and
-- leaves the arguments that are no flags.
unfoldable pub parse : (Config → Config × List Bytes) → Machine → Config
unfolding from_argument resolve_host_config
parse parse_flags m =
    let (cfg, args) = parse_flags (flag_defaults m) in
    let cfg' = if eqb cfg.host [] then from_argument cfg args else cfg in
    if not (eqb cfg'.host []) then resolve_host_config m cfg' else cfg'

-- net.JoinHostPort puts an IPv6 address between brackets.
unfoldable pub addr : Config → Bytes
unfolding index
addr c = elim (index c.host (codes ":")) [
  | none ↦ c.host ++ (b':' ∷ format_int c.port)
  | some i ↦ b'[' ∷ (c.host ++ (codes "]:" ++ format_int c.port))
]
