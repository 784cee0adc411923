-- ===== src/Server/RunExamples.antt =====
-- A run of a request to run a command.
use mcp_ssh_workspace.Common.{
  ◌≡◌, ◌++◌, refl, false, none, some, [], Bytes, codes, eqb, if◌then◌else◌, arith,
}
use mcp_ssh_workspace.Common.Int.{pos}
use mcp_ssh_workspace.Text.Search.{has_prefix, last_index}
use mcp_ssh_workspace.Text.Trim.{trim_space, strip, strip_one}
use mcp_ssh_workspace.Exec.Markers.RoundTrip.{report}
use mcp_ssh_workspace.Client.{Client, ensure_connected, ensure_handles, check_alive}
use mcp_ssh_workspace.Client.Run.{ended, keep_sudo}
use mcp_ssh_workspace.Client.Run.Reported.{reported}
use mcp_ssh_workspace.Remote.Memory.{Host}
use mcp_ssh_workspace.Tools.{Request, json, get_param_string, get_param_int, get_param_bool}
use mcp_ssh_workspace.Tools.Calls.{remote_run_command, required, run_call, tool_call}
use mcp_ssh_workspace.Server.{Outside, exec_result, with_connection}
use mcp_ssh_workspace.Server.Tools.{calls, serve}
use mcp_ssh_workspace.Server.Ran.{run_tool-reported}
use mcp_ssh_workspace.Server.Examples.{outside, moment}
use mcp_ssh_workspace.Server.TripExamples.{before}

-- Every command prints `hi` and ends in `/srv`.
abbrev with_output : Outside Host Host
with_output = record outside {
  sessions = record outside.sessions {
    race = λ sess wait w. (ended none (codes "hi" ++ report 0 (codes "/srv")) [], w);
  };
}

abbrev value_of : Bytes → Bytes
value_of k = if eqb k (codes "command") then codes "ls" else []

abbrev request : Request
request = record {
  has = λ k. false;
  get_string = λ k d. value_of k;
  get_int = λ k d. d;
  get_bool = λ k d. d;
  get_string_slice = λ k d. d;
}

run_tool-reported_example :
    (c' : Client) × (serve with_output moment (calls remote_run_command) request before
      ≡ some (
        json (exec_result (reported none (codes "hi") [] 0 (codes "/srv"))),
        [],
        with_connection c' before.world before,
      ))
    × (c'.current_cwd ≡ codes "/srv")
unfolding tool_call run_call required get_param_string get_param_int get_param_bool keep_sudo
    ensure_connected ensure_handles check_alive last_index has_prefix trim_space strip strip_one eqb
run_tool-reported_example =
    run_tool-reported with_output none (codes "hi") [] 0 (codes "/srv") refl (omega arith) refl
      (λ e. cc) moment request before (codes "ls") [] (pos 5000) [] false before.client
      before.client before.world before.world before.world before.world before.world before.world 1
      3 4 refl refl refl refl refl refl refl refl
