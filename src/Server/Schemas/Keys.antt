-- ===== src/Server/Schemas/Keys.antt =====
-- Which keys of its arguments a tool reads.
use mcp_ssh_workspace.Common.{
  ◌≡◌, refl, Bool, true, false, ◌||◌, ◌&&◌, Bool-cases, inl, inr, eqb_iff, List, [], ◌∷◌, Bytes,
  codes, eqb, All,
}
use mathlib.Core.Bool.{false≢true}
use mathlib.Core.Path.{subst}
use mcp_ssh_workspace.Common.Int.{ℤ}
use mcp_ssh_workspace.Tools.{
  Request, get_param_string, get_param_int, get_param_bool, get_param_string_slice,
}
use mcp_ssh_workspace.Tools.Calls.{
  remote_connect, remote_set_sudo_password, remote_run_command, remote_view_file,
  remote_replace_file_content, remote_write_file, remote_list_dir, remote_upload_file,
  remote_download_file,
}
use mcp_ssh_workspace.Server.Tools.{
  ServerTool, calls, remote_disconnect, remote_manage_task, remote_session_info, remote_grep_search,
  remote_find_by_name, remote_tunnel,
}

-- The declared parameters and the spellings that are accepted beside them.
abbrev pub keys : ServerTool → List Bytes
keys (calls remote_connect) =
    codes "host"
    ∷ codes "Host"
    ∷ codes "port"
    ∷ codes "Port"
    ∷ codes "user"
    ∷ codes "User"
    ∷ codes "keyPath"
    ∷ codes "KeyPath"
    ∷ codes "key_path"
    ∷ codes "password"
    ∷ codes "Password"
    ∷ codes "sudoPassword"
    ∷ codes "SudoPassword"
    ∷ codes "sudo_password"
    ∷ []
keys remote_disconnect = []
keys (calls remote_set_sudo_password) =
    codes "sudoPassword"
    ∷ codes "SudoPassword"
    ∷ codes "sudo_password"
    ∷ codes "password"
    ∷ codes "Password"
    ∷ []
keys (calls remote_run_command) =
    codes "commandLine"
    ∷ codes "CommandLine"
    ∷ codes "command"
    ∷ codes "command_line"
    ∷ codes "cmd"
    ∷ codes "cwd"
    ∷ codes "Cwd"
    ∷ codes "sudo"
    ∷ codes "Sudo"
    ∷ codes "runAsSudo"
    ∷ codes "run_as_sudo"
    ∷ codes "sudoPassword"
    ∷ codes "SudoPassword"
    ∷ codes "sudo_password"
    ∷ codes "isDaemon"
    ∷ codes "IsDaemon"
    ∷ codes "is_daemon"
    ∷ codes "daemon"
    ∷ codes "waitMsBeforeAsync"
    ∷ codes "WaitMsBeforeAsync"
    ∷ codes "wait_ms_before_async"
    ∷ codes "timeout"
    ∷ []
keys remote_manage_task =
    codes "action"
    ∷ codes "Action"
    ∷ codes "taskId"
    ∷ codes "TaskId"
    ∷ codes "task_id"
    ∷ codes "id"
    ∷ codes "input"
    ∷ codes "Input"
    ∷ codes "lines"
    ∷ codes "Lines"
    ∷ codes "n"
    ∷ []
keys remote_session_info = []
keys (calls remote_view_file) =
    codes "absolutePath"
    ∷ codes "AbsolutePath"
    ∷ codes "path"
    ∷ codes "filePath"
    ∷ codes "file_path"
    ∷ codes "startLine"
    ∷ codes "StartLine"
    ∷ codes "start_line"
    ∷ codes "endLine"
    ∷ codes "EndLine"
    ∷ codes "end_line"
    ∷ codes "maxBytes"
    ∷ codes "MaxBytes"
    ∷ codes "max_bytes"
    ∷ []
keys (calls remote_replace_file_content) =
    codes "targetFile"
    ∷ codes "TargetFile"
    ∷ codes "path"
    ∷ codes "file"
    ∷ codes "targetContent"
    ∷ codes "TargetContent"
    ∷ codes "oldText"
    ∷ codes "old_text"
    ∷ codes "replacementContent"
    ∷ codes "ReplacementContent"
    ∷ codes "newText"
    ∷ codes "new_text"
    ∷ codes "startLine"
    ∷ codes "StartLine"
    ∷ codes "start_line"
    ∷ codes "endLine"
    ∷ codes "EndLine"
    ∷ codes "end_line"
    ∷ codes "allowMultiple"
    ∷ codes "AllowMultiple"
    ∷ codes "allow_multiple"
    ∷ []
keys (calls remote_write_file) =
    codes "targetFile"
    ∷ codes "TargetFile"
    ∷ codes "path"
    ∷ codes "file"
    ∷ codes "codeContent"
    ∷ codes "CodeContent"
    ∷ codes "content"
    ∷ codes "overwrite"
    ∷ codes "Overwrite"
    ∷ []
keys (calls remote_list_dir) =
    codes "directoryPath" ∷ codes "DirectoryPath" ∷ codes "path" ∷ codes "dir_path" ∷ []
keys (calls remote_upload_file) =
    codes "localPath"
    ∷ codes "LocalPath"
    ∷ codes "source"
    ∷ codes "remotePath"
    ∷ codes "RemotePath"
    ∷ codes "destination"
    ∷ codes "overwrite"
    ∷ codes "Overwrite"
    ∷ []
keys (calls remote_download_file) =
    codes "remotePath"
    ∷ codes "RemotePath"
    ∷ codes "source"
    ∷ codes "localPath"
    ∷ codes "LocalPath"
    ∷ codes "destination"
    ∷ codes "overwrite"
    ∷ codes "Overwrite"
    ∷ []
keys remote_grep_search =
    codes "searchPath"
    ∷ codes "SearchPath"
    ∷ codes "path"
    ∷ codes "query"
    ∷ codes "Query"
    ∷ codes "isRegex"
    ∷ codes "IsRegex"
    ∷ codes "is_regex"
    ∷ codes "caseInsensitive"
    ∷ codes "CaseInsensitive"
    ∷ codes "case_insensitive"
    ∷ codes "includes"
    ∷ codes "Includes"
    ∷ []
keys remote_find_by_name =
    codes "searchDirectory"
    ∷ codes "SearchDirectory"
    ∷ codes "path"
    ∷ codes "dir"
    ∷ codes "pattern"
    ∷ codes "Pattern"
    ∷ codes "type"
    ∷ codes "Type"
    ∷ codes "maxDepth"
    ∷ codes "MaxDepth"
    ∷ codes "max_depth"
    ∷ []
keys remote_tunnel =
    codes "action"
    ∷ codes "Action"
    ∷ codes "remotePort"
    ∷ codes "RemotePort"
    ∷ codes "localPort"
    ∷ codes "LocalPort"
    ∷ codes "remoteHost"
    ∷ codes "RemoteHost"
    ∷ codes "tunnelId"
    ∷ codes "TunnelId"
    ∷ codes "id"
    ∷ []

-- The requests give the same under a key.
abbrev pub Same : Request → Request → Bytes → Type 0
Same r s k =
    (r.has k ≡ s.has k)
    × ((d : Bytes) → r.get_string k d ≡ s.get_string k d)
    × ((d : ℤ) → r.get_int k d ≡ s.get_int k d)
    × ((d : Bool) → r.get_bool k d ≡ s.get_bool k d)
    × ((d : List Bytes) → r.get_string_slice k d ≡ s.get_string_slice k d)

module _ (r s : Request) where
  same_string :
      (ks : List Bytes) → All (Same r s) ks → get_param_string r ks ≡ get_param_string s ks
  unfolding get_param_string
  same_string [] same = refl
  same_string (k ∷ ks) ((has, string, int, bool, slice), more) =
      rw (string [], same_string ks more) refl

  same_int :
      (d : ℤ) (ks : List Bytes) → All (Same r s) ks → get_param_int r d ks ≡ get_param_int s d ks
  unfolding get_param_int
  same_int d [] same = refl
  same_int d (k ∷ ks) ((has, string, int, bool, slice), more) =
      rw (has, int d, same_int d ks more) refl

  same_bool :
      (d : Bool) (ks : List Bytes)
      → All (Same r s) ks
      → get_param_bool r d ks ≡ get_param_bool s d ks
  unfolding get_param_bool
  same_bool d [] same = refl
  same_bool d (k ∷ ks) ((has, string, int, bool, slice), more) =
      rw (has, bool d, same_bool d ks more) refl

  same_slice :
      (ks : List Bytes)
      → All (Same r s) ks
      → get_param_string_slice r ks ≡ get_param_string_slice s ks
  unfolding get_param_string_slice
  same_slice [] same = refl
  same_slice (k ∷ ks) ((has, string, int, bool, slice), more) =
      rw (has, slice [], same_slice ks more) refl

abbrev pub is_in : List Bytes → Bytes → Bool
is_in [] k = false
is_in (j ∷ js) k = let rest = is_in js k in eqb j k || rest

abbrev pub covers : List Bytes → List Bytes → Bool
covers ks [] = true
covers ks (j ∷ js) = let rest = covers ks js in is_in ks j && rest

module _ (P : Bytes → Type 0) where
  all_in : (ks : List Bytes) (k : Bytes) → is_in ks k ≡ true → All P ks → P k
  all_in [] k h all = absurd (false≢true h)
  all_in (j ∷ js) k h (here, there) = elim (Bool-cases (eqb j k)) [
    | inl same ↦ subst P ((eqb_iff j k).0 same) here
    | inr other ↦ all_in js k (rw other at h) there
  ]

  covers_lem : (ks js : List Bytes) → covers ks js ≡ true → All P ks → All P js
  covers_lem ks [] h all = tt
  covers_lem ks (j ∷ js) h all = elim (Bool-cases (is_in ks j)) [
    | inl here ↦ (all_in ks j here all, covers_lem ks js (rw here at h) all)
    | inr absent ↦ absurd (false≢true (rw absent at h))
  ]

-- Two requests that give the same under the keys `ks`.
module _ (r s : Request) (ks : List Bytes) (same : All (Same r s) ks) where
  pub str : (js : List Bytes) → covers ks js ≡ true → get_param_string r js ≡ get_param_string s js
  str js h = same_string r s js (covers_lem (Same r s) ks js h same)

  pub strs :
      (js : List Bytes)
      → covers ks js ≡ true
      → get_param_string_slice r js ≡ get_param_string_slice s js
  strs js h = same_slice r s js (covers_lem (Same r s) ks js h same)

  pub int :
      (d : ℤ) (js : List Bytes) → covers ks js ≡ true → get_param_int r d js ≡ get_param_int s d js
  int d js h = same_int r s d js (covers_lem (Same r s) ks js h same)

  pub bool :
      (d : Bool) (js : List Bytes)
      → covers ks js ≡ true
      → get_param_bool r d js ≡ get_param_bool s d js
  bool d js h = same_bool r s d js (covers_lem (Same r s) ks js h same)
