-- ===== src/Server/TripExamples.antt =====
-- A run of a request to write a file, and of one to view it next.
use mcp_ssh_workspace.Common.{
  ◌≡◌, refl, false, some, List, [], ◌∷◌, Bytes, codes, eqb, if◌then◌else◌,
}
use mcp_ssh_workspace.Common.Store.{fetch}
use mcp_ssh_workspace.Common.Dict.{lookup, insert, erase}
use mcp_ssh_workspace.Common.Int.{pos}
use mcp_ssh_workspace.Common.Result.{ok}
use mcp_ssh_workspace.Text.Decimal.{format}
use mcp_ssh_workspace.Text.Search.{has_prefix, split_on, join_on}
use mcp_ssh_workspace.Text.Path.{is_abs, clean, join, dir}
use mcp_ssh_workspace.Client.{Client, initial_client, ensure_connected, ensure_handles, check_alive}
use mcp_ssh_workspace.Files.View.{ViewResult, scan_lines, number_line, view_text}
use mcp_ssh_workspace.Remote.{
  resolve_path, made, ensure_dir, make_parts, mkdir_all, write_opened, after_mkdir,
}
use mcp_ssh_workspace.Remote as Remote
use mcp_ssh_workspace.Remote.View as View
use mcp_ssh_workspace.Remote.View.{view_read, view_handle, view_opened}
use mcp_ssh_workspace.Remote.View.Shown.{Shown}
use mcp_ssh_workspace.Remote.Memory.{directory, file, Host}
use mcp_ssh_workspace.Remote.Memory.Laws.{memory-Contents}
use mcp_ssh_workspace.Tools.{Request, text, json, get_param_string, get_param_int, get_param_bool}
use mcp_ssh_workspace.Tools.Calls.{
  view_file, write_file, remote_view_file, remote_write_file, required, view_call, write_call,
  tool_call,
}
use mcp_ssh_workspace.Server.{State, view_result, with_files, after_sftp, use_sftp}
use mcp_ssh_workspace.Server.Files.{view_reply, serve_view, write_reply, serve_write}
use mcp_ssh_workspace.Server.Tools.{calls, execute, after_params, serve}
use mcp_ssh_workspace.Server.Replied.{online}
use mcp_ssh_workspace.Server.Viewed.{view_args}
use mcp_ssh_workspace.Server.RoundTrip.{write-view}
use mcp_ssh_workspace.Server.Examples.{outside, moment, to_box}

abbrev client : Client
client = record (initial_client outside.machine outside.network to_box) {
  ssh_client = some 1;
  sftp_client = some 2;
  current_cwd = codes "/a";
}

abbrev no_disk : Host
no_disk = record { nodes = []; handles = [] }

abbrev state_with : Host → State Host Host
state_with w = record { client = client; world = w; local_disk = no_disk }

abbrev pub before : State Host Host
before = state_with (record { nodes = (codes "/a", directory) ∷ []; handles = [] })

abbrev after : State Host Host
after = state_with (record {
  nodes = (codes "/a/g", file (codes "new")) ∷ (codes "/a", directory) ∷ [];
  handles = codes "/a/g" ∷ [];
})

abbrev behind : State Host Host
behind = state_with (record {
  nodes = (codes "/a/g", file (codes "new")) ∷ (codes "/a", directory) ∷ [];
  handles = codes "/a/g" ∷ codes "/a/g" ∷ [];
})

abbrev value_of : Bytes → Bytes
value_of k =
    if eqb k (codes "path") then codes "g" else if eqb k (codes "content") then codes "new" else []

abbrev request : Request
request = record {
  has = λ k. false;
  get_string = λ k d. value_of k;
  get_int = λ k d. d;
  get_bool = λ k d. d;
  get_string_slice = λ k d. d;
}

abbrev result : ViewResult
result = record {
  path = codes "/a/g";
  total_lines = 1;
  start_line = 1;
  end_line = 1;
  content = codes "     1 | new\n";
  is_truncated = false;
}

abbrev said : Bytes
said = codes "Successfully wrote 3 bytes to g"

writes : tool_call request remote_write_file ≡ ok (write_file (codes "g") (codes "new") false)
unfolding tool_call write_call required get_param_string get_param_bool eqb
writes = refl

views :
    tool_call request remote_view_file
    ≡ ok (view_file (codes "g") (pos 1) (pos 0) (pos 0) (pos 46080))
unfolding tool_call view_call required get_param_string get_param_int eqb
views = refl

written :
    serve outside moment (calls remote_write_file) request before ≡ some (text said, [], after)
unfolding serve after_params execute tool_call write_call required get_param_string get_param_bool
    serve_write write_reply with_files after_sftp use_sftp ensure_connected ensure_handles
    check_alive Remote.write_file after_mkdir write_opened mkdir_all make_parts ensure_dir made
    resolve_path is_abs clean join dir split_on join_on has_prefix lookup insert erase fetch eqb
    format
written = refl

viewed :
    serve outside moment (calls remote_view_file) request after
    ≡ some (json (view_result result), [], behind)
unfolding serve after_params execute tool_call view_call required get_param_string get_param_int
    serve_view view_reply with_files after_sftp use_sftp ensure_connected ensure_handles check_alive
    View.view_file view_opened view_handle view_read view_text scan_lines number_line resolve_path
    is_abs clean join lookup fetch eqb format
viewed = refl

alive : online outside after ≡ after
unfolding ensure_connected ensure_handles check_alive eqb
alive = refl

write-view_example :
    (ls : List Bytes) × (scan_lines (codes "new") ≡ some ls)
    × Shown ls (view_args (pos 1) (pos 0) (pos 46080)) result
write-view_example =
    write-view outside (λ h. memory-Contents) (λ h j p w. refl) (codes "g") (codes "new")
      (codes "g") false (pos 1) (pos 0) (pos 0) (pos 46080) request request moment moment said
      result [] [] before after behind writes views written alive refl viewed
