-- ===== src/Client/Examples.antt =====
-- Runs of the code of internal/sshclient/client.go, and of `RunCommand`.
use mcp_ssh_workspace.Common.{
  ℕ, ◌+◌, ◌≡◌, ◌≢◌, ◌⊎◌, refl, Bool, true, false, Option, none, some, [], ◌++◌, codes, eqb,
}
use mcp_ssh_workspace.Common.Int.{pos}
use mcp_ssh_workspace.Common.Result.{ok}
use mcp_ssh_workspace.Config.{Config, Machine}
use mcp_ssh_workspace.Tasks.{new_task_manager}
use mcp_ssh_workspace.Tunnels.{new_tunnel_manager}
use mcp_ssh_workspace.Tunnels.Registry.{new-IsValid}
use mcp_ssh_workspace.Tunnels.Closing.{AllClosed}
use mcp_ssh_workspace.Exec.Markers.RoundTrip.{report}
use mcp_ssh_workspace.Client.{
  Client, Network, connected, ConnectError, is_connected, auth_methods, connect, ensure_connected,
  ensure_handles, dial_with, with_client, with_sftp, connect_to,
}
use mcp_ssh_workspace.Client.Connecting.{ensure_connected-Ready}
use mcp_ssh_workspace.Client.Closing.{SameHandles, connect_to_cases}
use mcp_ssh_workspace.Client.Run.{CommandOptions, ended, Sessions, run_command}
use mcp_ssh_workspace.Client.Run.Registered.{Registers, run-Registers}

abbrev laptop : Machine
laptop = record {
  getenv = λ k. [];
  home_dir = codes "/home/ann";
  ssh_config = none;
  exists = λ p. false;
}

-- A network on which everything succeeds. Its state counts what was closed.
abbrev network : Network ℕ
network = record {
  agent = λ sock w. false;
  private_key = λ p w. none;
  dial = λ address user methods w. (connected 1, w);
  new_sftp = λ client w. (connected 2, w);
  getwd = λ sftp_cli w. some (codes "/home/ann");
  close_ssh = λ h w. w + 1;
  close_sftp = λ h w. w + 1;
}

abbrev to_box : Config
to_box = record {
  host = codes "box";
  port = pos 22;
  user = codes "ann";
  key_path = [];
  password = codes "pw";
  sudo_password = [];
  work_dir = [];
  use_agent = true;
  known_hosts = [];
}

abbrev idle : Client
idle = record {
  cfg = to_box;
  ssh_client = none;
  sftp_client = none;
  task_mgr = new_task_manager;
  tunnel_mgr = new_tunnel_manager;
  current_cwd = [];
  sudo_password = [];
}

abbrev online : Client
online = record idle { ssh_client = some 1; sftp_client = some 2; current_cwd = codes "/home/ann" }

connect_runs : connect laptop network idle 0 ≡ (none, online, 0)
unfolding connect dial_with with_client with_sftp auth_methods eqb
connect_runs = refl

ensure_connected-Ready_example :
    (is_connected (ensure_connected laptop network idle 0).1 ≡ true) × (idle.cfg.host ≢ [])
unfolding ensure_connected ensure_handles connect dial_with with_client with_sftp auth_methods eqb
ensure_connected-Ready_example = ensure_connected-Ready laptop network idle 0 refl

connect_to_cases_example :
    (r : Option ConnectError × Client × ℕ) × (connect_to laptop network
        (codes "box")
        (pos 22)
        (codes "ann")
        []
        (codes "pw")
        []
        online
        0
      ≡ ok r)
    × AllClosed r.1.tunnel_mgr
    × (((r.0 ≡ none) × (is_connected r.1 ≡ true) × (r.1.current_cwd ≢ []))
        ⊎ ((why : ConnectError) × (r.0 ≡ some why) × SameHandles laptop network online r.1))
connect_to_cases_example =
    connect_to_cases laptop network (codes "box") (pos 22) (codes "ann") [] (codes "pw") [] online 0
      new-IsValid

-- A session whose command ends at once, in `/srv`.
abbrev sessions : Sessions ℕ
sessions = record {
  new_session = λ client w. (connected 3, w);
  stdin_pipe = λ sess w. (connected 4, w);
  start = λ sess script w. (none, w);
  close_session = λ sess w. w;
  race = λ sess wait w. (ended none (codes "hi" ++ report 0 (codes "/srv")) [], w);
  now = λ w. 7;
}

-- ASCII counts as printable.
abbrev printable : ℕ → Bool
printable c = true

abbrev plain : CommandOptions
plain = record { sudo_password = []; run_as_sudo = true }

run-Registers_example :
    Registers online
      (run_command laptop network sessions printable (codes "ls") [] false (pos 0) plain online 0)
run-Registers_example =
    run-Registers laptop network sessions printable (codes "ls") [] false (pos 0) plain online 0
