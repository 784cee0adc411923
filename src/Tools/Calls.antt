-- ===== src/Tools/Calls.antt =====
-- The tools of internal/tools/register.go that hand their arguments to a method of the client.
pub mod Required
use mcp_ssh_workspace.Common.{
  ℕ, ◌≡◌, Bool, true, false, List, [], ◌∷◌, ◌++◌, Bytes, codes, eqb, if◌then◌else◌,
}
use mcp_ssh_workspace.Common.Int.{ℤ, pos}
use mcp_ssh_workspace.Common.Result.{Result, ok, err, bind}
use mcp_ssh_workspace.Tools.{
  Request, get_param_string, get_param_int, get_param_bool, get_param_string_slice,
}

pub data Tool : Type 0 where
  remote_connect remote_set_sudo_password remote_run_command remote_view_file
        remote_replace_file_content remote_write_file remote_list_dir remote_upload_file
        remote_download_file :
      Tool

-- The methods of the client, with the arguments that the handlers pass.
pub data ClientCall : Type 0 where
  -- host port user key_path password sudo_password
  connect_to : Bytes → ℤ → Bytes → Bytes → Bytes → Bytes → ClientCall
  set_sudo_password : Bytes → ClientCall
  -- cmd target_cwd is_daemon wait_ms sudo_password run_as_sudo
  run_command : Bytes → Bytes → Bool → ℤ → Bytes → Bool → ClientCall
  -- remote_path start_line end_line offset max_bytes
  view_file : Bytes → ℤ → ℤ → ℤ → ℤ → ClientCall
  -- remote_path target_content replacement_content start_line end_line allow_multiple
  replace_file_content : Bytes → Bytes → Bytes → ℤ → ℤ → Bool → ClientCall
  -- remote_path content overwrite
  write_file : Bytes → Bytes → Bool → ClientCall
  list_dir : Bytes → ClientCall
  -- local_path remote_path overwrite
  upload_file : Bytes → Bytes → Bool → ClientCall
  -- remote_path local_path overwrite
  download_file : Bytes → Bytes → Bool → ClientCall

-- if v == "" { return mcp.NewToolResultError("<name> is required"), nil }
unfoldable pub required :
    Bytes → Bytes → (Bytes → Result Bytes ClientCall) → Result Bytes ClientCall
required name v call = if eqb v [] then err (name ++ codes " is required") else call v

module _ (req : Request) where
  abbrev sudo_password_of : Bytes
  sudo_password_of =
      get_param_string req
        (codes "sudoPassword" ∷ codes "SudoPassword" ∷ codes "sudo_password" ∷ [])

  abbrev start_line_of : ℤ → ℤ
  start_line_of d =
      get_param_int req d (codes "startLine" ∷ codes "StartLine" ∷ codes "start_line" ∷ [])

  abbrev end_line_of : ℤ
  end_line_of =
      get_param_int req (pos 0) (codes "endLine" ∷ codes "EndLine" ∷ codes "end_line" ∷ [])

  abbrev overwrite_of : Bool → Bool
  overwrite_of d = get_param_bool req d (codes "overwrite" ∷ codes "Overwrite" ∷ [])

  unfoldable pub connect_call : Result Bytes ClientCall
  connect_call =
      required (codes "host") (get_param_string req (codes "host" ∷ codes "Host" ∷ [])) (λ host.
        ok (
          connect_to host (get_param_int req (pos 22) (codes "port" ∷ codes "Port" ∷ []))
            (get_param_string req (codes "user" ∷ codes "User" ∷ []))
            (get_param_string req (codes "keyPath" ∷ codes "KeyPath" ∷ codes "key_path" ∷ []))
            (get_param_string req (codes "password" ∷ codes "Password" ∷ [])) sudo_password_of))

  unfoldable pub set_sudo_call : Result Bytes ClientCall
  set_sudo_call =
      required (codes "sudoPassword")
        (get_param_string req (
          codes "sudoPassword"
          ∷ codes "SudoPassword"
          ∷ codes "sudo_password"
          ∷ codes "password"
          ∷ codes "Password"
          ∷ []))
        (λ pw. ok (set_sudo_password pw))

  unfoldable pub run_call : Result Bytes ClientCall
  run_call =
      required (codes "commandLine (or command / CommandLine)")
        (get_param_string req (
          codes "commandLine"
          ∷ codes "CommandLine"
          ∷ codes "command"
          ∷ codes "command_line"
          ∷ codes "cmd"
          ∷ []))
        (λ cmd. ok (
          run_command cmd (get_param_string req (codes "cwd" ∷ codes "Cwd" ∷ []))
            (get_param_bool req false
              (codes "isDaemon" ∷ codes "IsDaemon" ∷ codes "is_daemon" ∷ codes "daemon" ∷ []))
            (get_param_int req (pos 5000) (
              codes "waitMsBeforeAsync"
              ∷ codes "WaitMsBeforeAsync"
              ∷ codes "wait_ms_before_async"
              ∷ codes "timeout"
              ∷ []))
            sudo_password_of
            (get_param_bool req false
              (codes "sudo" ∷ codes "Sudo" ∷ codes "runAsSudo" ∷ codes "run_as_sudo" ∷ []))))

  unfoldable pub view_call : Result Bytes ClientCall
  view_call =
      required (codes "absolutePath")
        (get_param_string req (
          codes "absolutePath"
          ∷ codes "AbsolutePath"
          ∷ codes "path"
          ∷ codes "filePath"
          ∷ codes "file_path"
          ∷ []))
        (λ path. ok (
          view_file path (start_line_of (pos 1)) end_line_of (pos 0) (
            get_param_int req (pos 46080)
              (codes "maxBytes" ∷ codes "MaxBytes" ∷ codes "max_bytes" ∷ []))))

  unfoldable pub replace_call : Result Bytes ClientCall
  replace_call =
      required (codes "targetFile")
        (get_param_string req
          (codes "targetFile" ∷ codes "TargetFile" ∷ codes "path" ∷ codes "file" ∷ []))
        (λ target_file.
          required (codes "targetContent")
            (get_param_string req (
              codes "targetContent"
              ∷ codes "TargetContent"
              ∷ codes "oldText"
              ∷ codes "old_text"
              ∷ []))
            (λ target_content. ok (
              replace_file_content target_file target_content
                (get_param_string req (
                  codes "replacementContent"
                  ∷ codes "ReplacementContent"
                  ∷ codes "newText"
                  ∷ codes "new_text"
                  ∷ []))
                (start_line_of (pos 0)) end_line_of
                (get_param_bool req false
                  (codes "allowMultiple" ∷ codes "AllowMultiple" ∷ codes "allow_multiple" ∷ [])))))

  unfoldable pub write_call : Result Bytes ClientCall
  write_call =
      required (codes "targetFile")
        (get_param_string req
          (codes "targetFile" ∷ codes "TargetFile" ∷ codes "path" ∷ codes "file" ∷ []))
        (λ target_file. ok (
          write_file target_file
            (get_param_string req
              (codes "codeContent" ∷ codes "CodeContent" ∷ codes "content" ∷ []))
            (overwrite_of false)))

  unfoldable pub list_dir_call : Result Bytes ClientCall
  list_dir_call =
      required (codes "directoryPath")
        (get_param_string req
          (codes "directoryPath" ∷ codes "DirectoryPath" ∷ codes "path" ∷ codes "dir_path" ∷ []))
        (λ dir_path. ok (list_dir dir_path))

  unfoldable pub upload_call : Result Bytes ClientCall
  upload_call =
      required (codes "localPath")
        (get_param_string req (codes "localPath" ∷ codes "LocalPath" ∷ codes "source" ∷ []))
        (λ local_path.
          required (codes "remotePath")
            (get_param_string req
              (codes "remotePath" ∷ codes "RemotePath" ∷ codes "destination" ∷ []))
            (λ remote_path. ok (upload_file local_path remote_path (overwrite_of true))))

  unfoldable pub download_call : Result Bytes ClientCall
  download_call =
      required (codes "remotePath")
        (get_param_string req (codes "remotePath" ∷ codes "RemotePath" ∷ codes "source" ∷ []))
        (λ remote_path.
          required (codes "localPath")
            (get_param_string req
              (codes "localPath" ∷ codes "LocalPath" ∷ codes "destination" ∷ []))
            (λ local_path. ok (download_file remote_path local_path (overwrite_of true))))

  unfoldable pub tool_call : Tool → Result Bytes ClientCall
  unfolding connect_call set_sudo_call run_call view_call replace_call write_call list_dir_call
      upload_call download_call
  tool_call remote_connect = connect_call
  tool_call remote_set_sudo_password = set_sudo_call
  tool_call remote_run_command = run_call
  tool_call remote_view_file = view_call
  tool_call remote_replace_file_content = replace_call
  tool_call remote_write_file = write_call
  tool_call remote_list_dir = list_dir_call
  tool_call remote_upload_file = upload_call
  tool_call remote_download_file = download_call
