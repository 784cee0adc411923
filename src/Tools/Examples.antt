-- ===== src/Tools/Examples.antt =====
-- Runs of the code of internal/tools/register.go.
use mcp_ssh_workspace.Common.{
  ℕ, ◌≡◌, refl, Bool, true, false, Option, none, some, List, [], ◌∷◌, Bytes, codes, eqb,
  if◌then◌else◌,
}
use mcp_ssh_workspace.Common.Int.{pos}
use mcp_ssh_workspace.Common.Result.{Result, ok, err}
use mcp_ssh_workspace.Common.Dict.{lookup, insert, erase}
use mcp_ssh_workspace.Text.Decimal.{format, format_int, format_int64}
use mcp_ssh_workspace.Tasks.{
  TaskManager, new_task_manager, register, get, kill, kill_task, signal_kill, close_session,
}
use mcp_ssh_workspace.Tools.{Request, get_param_string, get_param_int, text, json}
use mcp_ssh_workspace.Tools.Task.{on_session, manage_task, kill_action}
use mcp_ssh_workspace.Tools.Task.Effects.{Allowed, manage_task_effects}
use mcp_ssh_workspace.Tunnels.{
  Tunnel, TunnelManager, new_tunnel_manager, add_tunnel, open_bound, open_tunnel,
}
use mcp_ssh_workspace.Common.Store.{fetch}
use mcp_ssh_workspace.Tools.Tunnel.{tunnel_opened, open_reply, open_action, tunnel_tool}
use mcp_ssh_workspace.Tools.Calls.{
  remote_list_dir, remote_upload_file, required, list_dir_call, tool_call,
}
use mcp_ssh_workspace.Tools.Calls.Required.{Fits, first_missing, required_params, tool_call-Fits}

-- A request whose arguments are all strings.
abbrev value_of : Bytes → List (Bytes × Bytes) → Option Bytes
value_of k [] = none
value_of k ((j, v) ∷ args) = let rest = value_of k args in if eqb j k then some v else rest

abbrev is_some : Option Bytes → Bool
is_some none = false
is_some (some v) = true

abbrev or_default : Bytes → Option Bytes → Bytes
or_default d none = d
or_default d (some v) = v

abbrev with_strings : List (Bytes × Bytes) → Request
with_strings args = record {
  has = λ k. is_some (value_of k args);
  get_string = λ k d. or_default d (value_of k args);
  get_int = λ k d. d;
  get_bool = λ k d. d;
  get_string_slice = λ k d. d;
}

abbrev kill_request : Request
kill_request =
    with_strings ((codes "Action", codes "kill") ∷ (codes "task_id", codes "task-1") ∷ [])

abbrev one_task : TaskManager
one_task = (register (codes "ls") (codes "/") 5 3 4 [] [] new_task_manager).1

abbrev writes_fine : ℕ → Bytes → Option Bytes
writes_fine stdin line = none

manage_task_effects_example :
    Allowed kill_request one_task (manage_task writes_fine kill_request one_task).1
manage_task_effects_example = manage_task_effects writes_fine kill_request one_task

manage_task_runs : manage_task writes_fine kill_request one_task ≡ (
  text (codes "Task task-1 successfully terminated"),
  on_session (signal_kill 3) ∷ on_session (close_session 3) ∷ [],
)
unfolding manage_task get_param_string kill kill_task kill_action get register lookup insert
    format_int64 format eqb
manage_task_runs = refl

-- ASCII counts as printable.
abbrev printable : ℕ → Bool
printable c = true

abbrev upload_request : Request
upload_request = with_strings ((codes "source", codes "a") ∷ (codes "RemotePath", codes "b") ∷ [])

tool_call-Fits_example :
    Fits
      (first_missing upload_request (required_params remote_upload_file))
      (tool_call upload_request remote_upload_file)
tool_call-Fits_example = tool_call-Fits upload_request remote_upload_file

upload_fits : first_missing upload_request (required_params remote_upload_file) ≡ none
unfolding get_param_string eqb
upload_fits = refl

list_dir_runs :
    tool_call (with_strings []) remote_list_dir ≡ err (codes "directoryPath is required")
unfolding tool_call list_dir_call required get_param_string eqb
list_dir_runs = refl

-- The port is a number.
abbrev open_request : Request
open_request = record {
  has = λ k. eqb k (codes "remotePort");
  get_string = λ k d. if eqb k (codes "action") then codes "open" else d;
  get_int = λ k d. pos 80;
  get_bool = λ k d. d;
  get_string_slice = λ k d. d;
}

abbrev listen : Bytes → Result Bytes (ℕ × ℕ)
listen address = ok (4, 41000)

abbrev the_tunnel : Tunnel
the_tunnel = record {
  id = codes "tun-1";
  local_port = 41000;
  remote_host = codes "127.0.0.1";
  remote_port = pos 80;
  created_at = codes "now";
  listener = 4;
  closed = false;
  stop_closed = false;
  listener_closed = false;
}

abbrev one_tunnel : TunnelManager
one_tunnel = record { tunnels = (codes "tun-1", 0) ∷ []; next_id = 1; heap = the_tunnel ∷ [] }

tunnel_opens :
    tunnel_tool listen (codes "now") open_request new_tunnel_manager
    ≡ ok (
      json (
          tunnel_opened
            (codes "Tunnel established: 127.0.0.1:41000 -> 127.0.0.1:80")
            the_tunnel
            (codes "http://127.0.0.1:41000")),
      one_tunnel,
    )
unfolding tunnel_tool open_action open_reply open_tunnel open_bound add_tunnel get_param_string
    get_param_int fetch lookup insert erase format format_int format_int64 eqb
tunnel_opens = refl
