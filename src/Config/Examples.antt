-- ===== src/Config/Examples.antt =====
-- Runs of the code of internal/config/config.go.
use mcp_ssh_workspace.Common.{
  ◌≡◌, refl, true, false, Option, some, [], ◌∷◌, Bytes, codes, eqb, if◌then◌else◌, ◌&&◌, ◌≢◌,
  Bool-cases, inl, inr, eqb_iff,
}
use mcp_ssh_workspace.Common.Int.{pos}
use mcp_ssh_workspace.Text.Decimal.{format, format_int}
use mcp_ssh_workspace.Text.Search.{has_prefix, index, split_n2}
use mcp_ssh_workspace.Config.{
  Config, Machine, from_ssh_config, fill_defaults, resolve_host_config, from_argument, parse, addr,
}
use mcp_ssh_workspace.Config.Resolve.{alias_settings_ignored}

-- Host box with HostName 10.0.0.7, User deploy and Port 2222
abbrev box_config : Bytes → Bytes → Option Bytes
box_config host key =
    if eqb host (codes "box")
    then (if eqb key (codes "HostName") then some (codes "10.0.0.7") else some (codes "deploy"))
    else some []

-- The same without the user under the alias.
abbrev plain_config : Bytes → Bytes → Option Bytes
plain_config host key =
    if eqb host (codes "box") && eqb key (codes "HostName")
    then some (codes "10.0.0.7")
    else some []

abbrev laptop : Machine
laptop = record {
  getenv = λ k. if eqb k (codes "USER") then codes "ann" else [];
  home_dir = codes "/home/ann";
  ssh_config = some box_config;
  exists = λ p. false;
}

abbrev to_box : Config
to_box = record {
  host = codes "box";
  port = pos 0;
  user = [];
  key_path = [];
  password = [];
  sudo_password = [];
  work_dir = [];
  use_agent = true;
  known_hosts = [];
}

abbrev explicit : Config
explicit = record to_box { port = pos 2200; user = codes "bob"; key_path = codes "/k" }

-- On any other host the two files say nothing.
same_elsewhere :
    (host key : Bytes) → host ≢ codes "box" → box_config host key ≡ plain_config host key
same_elsewhere host key other = elim (Bool-cases (eqb host (codes "box"))) [
  | inl e ↦ absurd (other ((eqb_iff host (codes "box")).0 e))
  | inr e ↦ rw e refl
]

alias_settings_ignored_example :
    resolve_host_config (record laptop { ssh_config = some box_config }) to_box
    ≡ resolve_host_config (record laptop { ssh_config = some plain_config }) to_box
unfolding eqb
alias_settings_ignored_example =
    alias_settings_ignored laptop to_box box_config plain_config (codes "10.0.0.7") refl refl
      (λ e. cc) (λ e. cc) same_elsewhere

-- The command line has one argument that is no flag.
parse_runs : addr (parse (λ cfg. (cfg, codes "bob@box" ∷ [])) laptop) ≡ codes "10.0.0.7:22"
unfolding addr parse from_argument resolve_host_config from_ssh_config fill_defaults has_prefix
    index split_n2 eqb format_int format
parse_runs = refl
