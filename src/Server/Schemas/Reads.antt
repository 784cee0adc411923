-- ===== src/Server/Schemas/Reads.antt =====
-- A tool reads nothing of a request but its keys.
use mcp_ssh_workspace.Common.{◌≡◌, refl, ap, true, false, [], ◌∷◌, codes, eqb, All}
use mcp_ssh_workspace.Common.Int.{pos}
use mcp_ssh_workspace.Tools.{Request}
use mcp_ssh_workspace.Tools.Calls.{
  Tool, remote_connect, remote_set_sudo_password, remote_run_command, remote_view_file,
  remote_replace_file_content, remote_write_file, remote_list_dir, remote_upload_file,
  remote_download_file, connect_call, set_sudo_call, run_call, view_call, replace_call, write_call,
  list_dir_call, upload_call, download_call, tool_call,
}
use mcp_ssh_workspace.Tools.Task.{manage_task}
use mcp_ssh_workspace.Tools.Tunnel.{open_action, close_action, tunnel_tool}
use mcp_ssh_workspace.Server.{Outside, Moment, State}
use mcp_ssh_workspace.Server.Commands.{serve_grep, serve_find}
use mcp_ssh_workspace.Server.Tools.{
  ServerTool, calls, remote_disconnect, remote_manage_task, remote_session_info, remote_grep_search,
  remote_find_by_name, remote_tunnel, after_params, serve,
}
use mcp_ssh_workspace.Server.Schemas.Keys.{keys, Same, str, strs, int, bool}

call_same :
    (tool : Tool) (r s : Request)
    → All (Same r s) (keys (calls tool))
    → tool_call r tool ≡ tool_call s tool
unfolding tool_call connect_call set_sudo_call run_call view_call replace_call write_call
    list_dir_call upload_call download_call eqb
call_same remote_connect r s same =
    let ks = keys (calls remote_connect) in
    rw
      (
        str r s ks same (codes "host" ∷ codes "Host" ∷ []) refl,
        int r s ks same (pos 22) (codes "port" ∷ codes "Port" ∷ []) refl,
        str r s ks same (codes "user" ∷ codes "User" ∷ []) refl,
        str r s ks same (codes "keyPath" ∷ codes "KeyPath" ∷ codes "key_path" ∷ []) refl,
        str r s ks same (codes "password" ∷ codes "Password" ∷ []) refl,
        str r s ks same (codes "sudoPassword" ∷ codes "SudoPassword" ∷ codes "sudo_password" ∷ [])
            refl,
      )
      refl
call_same remote_set_sudo_password r s same =
    let ks = keys (calls remote_set_sudo_password) in
    rw
      (str r s ks same
        (codes "sudoPassword"
          ∷ codes "SudoPassword"
          ∷ codes "sudo_password"
          ∷ codes "password"
          ∷ codes "Password"
          ∷ [])
        refl)
      refl
call_same remote_run_command r s same =
    let ks = keys (calls remote_run_command) in
    rw
      (
        str r s ks same
            (codes "commandLine"
              ∷ codes "CommandLine"
              ∷ codes "command"
              ∷ codes "command_line"
              ∷ codes "cmd"
              ∷ [])
            refl,
        str r s ks same (codes "cwd" ∷ codes "Cwd" ∷ []) refl,
        bool r s ks same false
            (codes "isDaemon" ∷ codes "IsDaemon" ∷ codes "is_daemon" ∷ codes "daemon" ∷ []) refl,
        int r s ks same (pos 5000)
            (codes "waitMsBeforeAsync"
              ∷ codes "WaitMsBeforeAsync"
              ∷ codes "wait_ms_before_async"
              ∷ codes "timeout"
              ∷ [])
            refl,
        str r s ks same (codes "sudoPassword" ∷ codes "SudoPassword" ∷ codes "sudo_password" ∷ [])
            refl,
        bool r s ks same false
            (codes "sudo" ∷ codes "Sudo" ∷ codes "runAsSudo" ∷ codes "run_as_sudo" ∷ []) refl,
      )
      refl
call_same remote_view_file r s same =
    let ks = keys (calls remote_view_file) in
    rw
      (
        str r s ks same
            (codes "absolutePath"
              ∷ codes "AbsolutePath"
              ∷ codes "path"
              ∷ codes "filePath"
              ∷ codes "file_path"
              ∷ [])
            refl,
        int r s ks same (pos 1) (codes "startLine" ∷ codes "StartLine" ∷ codes "start_line" ∷ [])
            refl,
        int r s ks same (pos 0) (codes "endLine" ∷ codes "EndLine" ∷ codes "end_line" ∷ []) refl,
        int r s ks same (pos 46080) (codes "maxBytes" ∷ codes "MaxBytes" ∷ codes "max_bytes" ∷ [])
            refl,
      )
      refl
call_same remote_replace_file_content r s same =
    let ks = keys (calls remote_replace_file_content) in
    rw
      (
        str r s ks same (codes "targetFile" ∷ codes "TargetFile" ∷ codes "path" ∷ codes "file" ∷ [])
            refl,
        str r s ks same
            (codes "targetContent"
              ∷ codes "TargetContent"
              ∷ codes "oldText"
              ∷ codes "old_text"
              ∷ [])
            refl,
        str r s ks same
            (codes "replacementContent"
              ∷ codes "ReplacementContent"
              ∷ codes "newText"
              ∷ codes "new_text"
              ∷ [])
            refl,
        int r s ks same (pos 0) (codes "startLine" ∷ codes "StartLine" ∷ codes "start_line" ∷ [])
            refl,
        int r s ks same (pos 0) (codes "endLine" ∷ codes "EndLine" ∷ codes "end_line" ∷ []) refl,
        bool r s ks same false
            (codes "allowMultiple" ∷ codes "AllowMultiple" ∷ codes "allow_multiple" ∷ []) refl,
      )
      refl
call_same remote_write_file r s same =
    let ks = keys (calls remote_write_file) in
    rw
      (
        str r s ks same (codes "targetFile" ∷ codes "TargetFile" ∷ codes "path" ∷ codes "file" ∷ [])
            refl,
        str r s ks same (codes "codeContent" ∷ codes "CodeContent" ∷ codes "content" ∷ []) refl,
        bool r s ks same false (codes "overwrite" ∷ codes "Overwrite" ∷ []) refl,
      )
      refl
call_same remote_list_dir r s same =
    let ks = keys (calls remote_list_dir) in
    rw
      (str r s ks same
        (codes "directoryPath" ∷ codes "DirectoryPath" ∷ codes "path" ∷ codes "dir_path" ∷ []) refl)
      refl
call_same remote_upload_file r s same =
    let ks = keys (calls remote_upload_file) in
    rw
      (
        str r s ks same (codes "localPath" ∷ codes "LocalPath" ∷ codes "source" ∷ []) refl,
        str r s ks same (codes "remotePath" ∷ codes "RemotePath" ∷ codes "destination" ∷ []) refl,
        bool r s ks same true (codes "overwrite" ∷ codes "Overwrite" ∷ []) refl,
      )
      refl
call_same remote_download_file r s same =
    let ks = keys (calls remote_download_file) in
    rw
      (
        str r s ks same (codes "remotePath" ∷ codes "RemotePath" ∷ codes "source" ∷ []) refl,
        str r s ks same (codes "localPath" ∷ codes "LocalPath" ∷ codes "destination" ∷ []) refl,
        bool r s ks same true (codes "overwrite" ∷ codes "Overwrite" ∷ []) refl,
      )
      refl

module _ {W V : Type 0} (o : Outside W V) (m : Moment) (st : State W V) where
  -- What a tool does and replies depends on the values under its keys only: for requests that give the
  -- same there, it is the same.
  pub serve-keys :
      (tool : ServerTool) (r s : Request)
      → All (Same r s) (keys tool)
      → serve o m tool r st ≡ serve o m tool s st
  unfolding serve serve_grep serve_find manage_task tunnel_tool open_action close_action eqb
  serve-keys (calls tool) r s same = ap (λ c. after_params o m c st) (call_same tool r s same)
  serve-keys remote_disconnect r s same = refl
  serve-keys remote_session_info r s same = refl
  serve-keys remote_manage_task r s same =
      let ks = keys remote_manage_task in
      rw
        (
          str r s ks same (codes "action" ∷ codes "Action" ∷ []) refl,
          str r s ks same (codes "taskId" ∷ codes "TaskId" ∷ codes "task_id" ∷ codes "id" ∷ [])
              refl,
          str r s ks same (codes "input" ∷ codes "Input" ∷ []) refl,
          int r s ks same (pos 50) (codes "lines" ∷ codes "Lines" ∷ codes "n" ∷ []) refl,
        )
        refl
  serve-keys remote_grep_search r s same =
      let ks = keys remote_grep_search in
      rw
        (
          str r s ks same (codes "searchPath" ∷ codes "SearchPath" ∷ codes "path" ∷ []) refl,
          str r s ks same (codes "query" ∷ codes "Query" ∷ []) refl,
          bool r s ks same false (codes "isRegex" ∷ codes "IsRegex" ∷ codes "is_regex" ∷ []) refl,
          bool r s ks same false
              (codes "caseInsensitive" ∷ codes "CaseInsensitive" ∷ codes "case_insensitive" ∷ [])
              refl,
          strs r s ks same (codes "includes" ∷ codes "Includes" ∷ []) refl,
        )
        refl
  serve-keys remote_find_by_name r s same =
      let ks = keys remote_find_by_name in
      rw
        (
          str r s ks same
              (codes "searchDirectory" ∷ codes "SearchDirectory" ∷ codes "path" ∷ codes "dir" ∷ [])
              refl,
          str r s ks same (codes "pattern" ∷ codes "Pattern" ∷ []) refl,
          str r s ks same (codes "type" ∷ codes "Type" ∷ []) refl,
          int r s ks same (pos 0) (codes "maxDepth" ∷ codes "MaxDepth" ∷ codes "max_depth" ∷ [])
              refl,
        )
        refl
  serve-keys remote_tunnel r s same =
      let ks = keys remote_tunnel in
      rw
        (
          str r s ks same (codes "action" ∷ codes "Action" ∷ []) refl,
          int r s ks same (pos 0) (codes "remotePort" ∷ codes "RemotePort" ∷ []) refl,
          int r s ks same (pos 0) (codes "localPort" ∷ codes "LocalPort" ∷ []) refl,
          str r s ks same (codes "remoteHost" ∷ codes "RemoteHost" ∷ []) refl,
          str r s ks same (codes "tunnelId" ∷ codes "TunnelId" ∷ codes "id" ∷ []) refl,
        )
        refl
