-- ===== src/Server/FileExamples.antt =====
-- Runs of requests for files, down to the files.
use mcp_ssh_workspace.Common.{
  ◌≢◌, ◌∷◌, ℕ, ◌≡◌, refl, Bool, false, none, some, List, [], Bytes, codes, eqb, if◌then◌else◌,
}
use mcp_ssh_workspace.Common.Store.{fetch}
use mcp_ssh_workspace.Common.Dict.{lookup, insert, erase}
use mcp_ssh_workspace.Common.Int.{ℤ}
use mcp_ssh_workspace.Common.Result.{ok}
use mcp_ssh_workspace.Text.Decimal.{format, format_int64}
use mcp_ssh_workspace.Text.Search.{has_prefix, split_on, join_on}
use mcp_ssh_workspace.Text.Path.{is_abs, clean, join, dir, base}
use mcp_ssh_workspace.Text.Replace.{count, replace}
use mcp_ssh_workspace.Client.{
  auth_methods, connect, ensure_connected, ensure_handles, check_alive, dial_with, with_client,
  with_sftp, new_client,
}
use mcp_ssh_workspace.Files.View.{ViewResult, scan_lines, number_line, view_text}
use mcp_ssh_workspace.Files.Replace.{edit_text, edit_chunk}
use mcp_ssh_workspace.Remote.{
  resolve_path, made, ensure_dir, make_parts, mkdir_all, write_opened, after_mkdir, write_back,
}
use mcp_ssh_workspace.Remote as Remote
use mcp_ssh_workspace.Remote.View as View
use mcp_ssh_workspace.Remote.View.{view_read, view_handle, view_opened}
use mcp_ssh_workspace.Remote.View.Shown.{Shown}
use mcp_ssh_workspace.Remote.Edit as Edit
use mcp_ssh_workspace.Remote.Edit.{
  ReplaceResult, temp_remote, after_write_back, after_edit, after_read, replace_opened,
}
use mcp_ssh_workspace.Remote.Memory.{Host}
use mcp_ssh_workspace.Remote.Memory.Laws.{memory-Contents}
use mcp_ssh_workspace.Tools.{Request, text, get_param_string, get_param_int, get_param_bool}
use mcp_ssh_workspace.Tools.Calls.{
  view_file, replace_file_content, write_file, remote_view_file, remote_replace_file_content,
  remote_write_file, required, view_call, replace_call, write_call, tool_call,
}
use mcp_ssh_workspace.Server.{State, Served, with_files, after_sftp, use_sftp}
use mcp_ssh_workspace.Server.Files.{
  view_reply, serve_view, replace_reply, serve_replace, write_reply, serve_write,
}
use mcp_ssh_workspace.Server.Tools.{calls, execute, after_params, serve}
use mcp_ssh_workspace.Server.Serving.{start_server}
use mcp_ssh_workspace.Server.Replied.{online}
use mcp_ssh_workspace.Server.Written.{write_tool-Written}
use mcp_ssh_workspace.Server.Viewed.{view_tool-Shown}
use mcp_ssh_workspace.Server.Edited.{Edited, replace_args, replace_tool-Edited}
use mcp_ssh_workspace.Server.Examples.{outside, moment, first_state, view_request}

abbrev write_value_of : Bytes → Bytes
write_value_of k =
    if eqb k (codes "path") then codes "g" else if eqb k (codes "content") then codes "new" else []

abbrev write_request : Request
write_request = record {
  has = λ k. false;
  get_string = λ k d. write_value_of k;
  get_int = λ k d. d;
  get_bool = λ k d. d;
  get_string_slice = λ k d. d;
}

abbrev written : Served Host Host
written = serve outside moment (calls remote_write_file) write_request first_state

abbrev pub state_after : Served Host Host → State Host Host
state_after none = first_state
state_after (some (r, effects, st)) = st

abbrev pub text_after : Served Host Host → Bytes
text_after (some (text t, effects, st)) = t
text_after a = []

write_tool-Written_example :
    let content =
      get_param_string write_request
        (codes "codeContent" ∷ codes "CodeContent" ∷ codes "content" ∷ []) in
    (target : Bytes) × (overwrite : Bool) × (target ≢ [])
    × (tool_call write_request remote_write_file ≡ ok (write_file target content overwrite))
    × (h : ℕ) × (memory-Contents.contents
          (resolve_path (state_after written).client.current_cwd target)
          (state_after written).world
        ≡ some content)
unfolding serve after_params execute tool_call write_call required get_param_string get_param_bool
    serve_write write_reply with_files after_sftp use_sftp ensure_connected ensure_handles
    check_alive start_server new_client connect dial_with with_client with_sftp auth_methods
    Remote.write_file after_mkdir write_opened mkdir_all make_parts ensure_dir made resolve_path
    is_abs clean join dir split_on join_on has_prefix lookup insert erase fetch eqb format
write_tool-Written_example =
    write_tool-Written outside (λ h. memory-Contents) (text_after written) [] (state_after written)
      moment write_request first_state refl

abbrev viewed : Served Host Host
viewed = serve outside moment (calls remote_view_file) view_request first_state

abbrev shown_result : ViewResult
shown_result = record {
  path = codes "/a/f";
  total_lines = 1;
  start_line = 1;
  end_line = 1;
  content = codes "     1 | old\n";
  is_truncated = false;
}

view_tool-Shown_example :
    (path : Bytes) × (start_line : ℤ) × (end_line : ℤ) × (offset : ℤ) × (max_bytes : ℤ) × (tool_call
        view_request remote_view_file
      ≡ ok (view_file path start_line end_line offset max_bytes))
    × (h : ℕ) × (text : Bytes) × (ls : List Bytes) × (memory-Contents.contents
          (resolve_path (state_after viewed).client.current_cwd path)
          (state_after viewed).world
        ≡ some text)
    × (scan_lines text ≡ some ls)
    × Shown ls
        (record { start_line = start_line; end_line = end_line; max_bytes = max_bytes })
        shown_result
unfolding serve after_params execute tool_call view_call required get_param_string get_param_int
    serve_view view_reply with_files after_sftp use_sftp ensure_connected ensure_handles check_alive
    start_server new_client connect dial_with with_client with_sftp auth_methods View.view_file
    view_opened view_handle view_read view_text scan_lines number_line resolve_path is_abs clean
    join lookup fetch eqb format
view_tool-Shown_example =
    view_tool-Shown outside (λ h. memory-Contents) shown_result [] (state_after viewed) moment
      view_request first_state refl

abbrev edit_value_of : Bytes → Bytes
edit_value_of k =
    if eqb k (codes "path")
    then codes "f"
    else if eqb k (codes "oldText")
    then codes "old"
    else if eqb k (codes "newText")
    then codes "new"
    else []

abbrev edit_request : Request
edit_request = record {
  has = λ k. false;
  get_string = λ k d. edit_value_of k;
  get_int = λ k d. d;
  get_bool = λ k d. d;
  get_string_slice = λ k d. d;
}

abbrev edited : Served Host Host
edited = serve outside moment (calls remote_replace_file_content) edit_request first_state

abbrev edit_result : ReplaceResult
edit_result = record {
  path = codes "/a/f";
  replacements = 1;
  total_lines = 1;
  message = codes "Successfully replaced 1 occurrence(s) in f";
}

replace_tool-Edited_example :
    (target_file : Bytes) × (target : Bytes) × (replacement : Bytes) × (start_line : ℤ)
    × (end_line : ℤ) × (several : Bool) × (tool_call edit_request remote_replace_file_content
        ≡ ok (replace_file_content target_file target replacement start_line end_line several))
    × Edited outside
        (λ h. memory-Contents)
        edit_result
        []
        (state_after edited)
        target_file
        (replace_args target replacement start_line end_line several)
        (online outside first_state)
        (state_after edited)
unfolding serve after_params execute tool_call replace_call required get_param_string get_param_int
    get_param_bool serve_replace replace_reply with_files after_sftp use_sftp ensure_connected
    ensure_handles check_alive start_server new_client connect dial_with with_client with_sftp
    auth_methods Edit.replace_file_content replace_opened after_read after_edit after_write_back
    Edit.replace_result write_back temp_remote resolve_path is_abs clean join lookup insert erase
    fetch eqb format format_int64 edit_text edit_chunk count replace split_on base
replace_tool-Edited_example =
    replace_tool-Edited outside (λ h. memory-Contents) edit_result [] (state_after edited) moment
      edit_request first_state refl
