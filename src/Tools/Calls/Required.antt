-- ===== src/Tools/Calls/Required.antt =====
-- No method of the client is called with an empty required argument.
use mcp_ssh_workspace.Common.{
  ◌≡◌, ◌≢◌, sym, ◌∙◌, Bool-cases, refl, inl, inr, Option, none, some, List, [], ◌∷◌, ◌++◌, Bytes,
  codes, eqb, eqb_iff, if◌then◌else◌,
}
use mathlib.Core.Bool.{false≢true}
use mcp_ssh_workspace.Common.Result.{
  Result, ok, err, panic, err-ne-ok, ok-injective, panic-ne-err, panic-ne-ok,
}
use mcp_ssh_workspace.Tools.{Request, get_param_string}
use mcp_ssh_workspace.Tools.Calls.{
  Tool, ClientCall, connect_to, set_sudo_password, run_command, view_file, replace_file_content,
  write_file, list_dir, upload_file, download_file, remote_connect, remote_set_sudo_password,
  remote_run_command, remote_view_file, remote_replace_file_content, remote_write_file,
  remote_list_dir, remote_upload_file, remote_download_file, required, connect_call, set_sudo_call,
  run_call, view_call, replace_call, write_call, list_dir_call, upload_call, download_call,
  tool_call,
}

-- The required arguments of a call are not empty. The content of a file and a replacement may be.
abbrev pub IsComplete : ClientCall → Type 0
IsComplete (connect_to host _ _ _ _ _) = host ≢ []
IsComplete (set_sudo_password pw) = pw ≢ []
IsComplete (run_command cmd _ _ _ _ _) = cmd ≢ []
IsComplete (view_file path _ _ _ _) = path ≢ []
IsComplete (replace_file_content path target _ _ _ _) = (path ≢ []) × (target ≢ [])
IsComplete (write_file path _ _) = path ≢ []
IsComplete (list_dir path) = path ≢ []
IsComplete (upload_file local_path remote_path _) = (local_path ≢ []) × (remote_path ≢ [])
IsComplete (download_file remote_path local_path _) = (remote_path ≢ []) × (local_path ≢ [])

abbrev Answers : Result Bytes ClientCall → Type 0
Answers r = (c : ClientCall) → r ≡ ok c → IsComplete c

required_lem :
    (name v : Bytes) (call : Bytes → Result Bytes ClientCall)
    → (v ≢ [] → Answers (call v))
    → Answers (required name v call)
unfolding required
required_lem name v call complete c h = elim (Bool-cases (eqb v [])) [
  | inl e ↦ absurd (err-ne-ok _ c (rw e at h))
  | inr e ↦ complete (λ blank. absurd (false≢true (sym e ∙ (eqb_iff v []).1 blank))) c (rw e at h)
]

this_call : (d : ClientCall) → IsComplete d → Answers (ok d)
this_call d complete c h = rw (sym (ok-injective d c h)) complete

both : {A B : Type 0} → A → B → A × B
both h k = (h, k)

-- Whatever a request holds, a tool calls the client only with required arguments that are not empty,
-- and answers an error otherwise.
pub tool_call-IsComplete :
    (req : Request) (tool : Tool) (c : ClientCall) → tool_call req tool ≡ ok c → IsComplete c
unfolding tool_call connect_call set_sudo_call run_call view_call replace_call write_call
    list_dir_call upload_call download_call
tool_call-IsComplete req remote_connect = required_lem _ _ _ (λ h. this_call _ h)
tool_call-IsComplete req remote_set_sudo_password = required_lem _ _ _ (λ h. this_call _ h)
tool_call-IsComplete req remote_run_command = required_lem _ _ _ (λ h. this_call _ h)
tool_call-IsComplete req remote_view_file = required_lem _ _ _ (λ h. this_call _ h)
tool_call-IsComplete req remote_replace_file_content =
    required_lem _ _ _ (λ h. required_lem _ _ _ (λ k. this_call _ (both h k)))
tool_call-IsComplete req remote_write_file = required_lem _ _ _ (λ h. this_call _ h)
tool_call-IsComplete req remote_list_dir = required_lem _ _ _ (λ h. this_call _ h)
tool_call-IsComplete req remote_upload_file =
    required_lem _ _ _ (λ h. required_lem _ _ _ (λ k. this_call _ (both h k)))
tool_call-IsComplete req remote_download_file =
    required_lem _ _ _ (λ h. required_lem _ _ _ (λ k. this_call _ (both h k)))

required_answers :
    (name v : Bytes) (call : Bytes → Result Bytes ClientCall)
    → ((w : Bytes) → call w ≢ panic)
    → required name v call ≢ panic
unfolding required
required_answers name v call answers h = elim (Bool-cases (eqb v [])) [
  | inl e ↦ panic-ne-err _ (sym (rw e at h))
  | inr e ↦ answers v (rw e at h)
]

call_answers : (c : ClientCall) → ◌≢◌ {A = Result Bytes ClientCall} (ok c) panic
call_answers c h = panic-ne-ok c (sym h)

-- Reading the parameters never panics.
pub tool_call_answers : (req : Request) (tool : Tool) → tool_call req tool ≢ panic
unfolding tool_call connect_call set_sudo_call run_call view_call replace_call write_call
    list_dir_call upload_call download_call
tool_call_answers req remote_connect = required_answers _ _ _ (λ w. call_answers _)
tool_call_answers req remote_set_sudo_password = required_answers _ _ _ (λ w. call_answers _)
tool_call_answers req remote_run_command = required_answers _ _ _ (λ w. call_answers _)
tool_call_answers req remote_view_file = required_answers _ _ _ (λ w. call_answers _)
tool_call_answers req remote_replace_file_content =
    required_answers _ _ _ (λ w. required_answers _ _ _ (λ v. call_answers _))
tool_call_answers req remote_write_file = required_answers _ _ _ (λ w. call_answers _)
tool_call_answers req remote_list_dir = required_answers _ _ _ (λ w. call_answers _)
tool_call_answers req remote_upload_file =
    required_answers _ _ _ (λ w. required_answers _ _ _ (λ v. call_answers _))
tool_call_answers req remote_download_file =
    required_answers _ _ _ (λ w. required_answers _ _ _ (λ v. call_answers _))

-- The required parameters of a tool, in the order in which they are looked at: what an error calls
-- each, and the keys that it may stand under. The content of `remote_write_file` and the replacement
-- of `remote_replace_file_content` are not among them.
abbrev pub required_params : Tool → List (Bytes × List Bytes)
required_params remote_connect = (codes "host", codes "host" ∷ codes "Host" ∷ []) ∷ []
required_params remote_set_sudo_password =
    (
      codes "sudoPassword",
      codes "sudoPassword"
          ∷ codes "SudoPassword"
          ∷ codes "sudo_password"
          ∷ codes "password"
          ∷ codes "Password"
          ∷ [],
    )
    ∷ []
required_params remote_run_command =
    (
      codes "commandLine (or command / CommandLine)",
      codes "commandLine"
          ∷ codes "CommandLine"
          ∷ codes "command"
          ∷ codes "command_line"
          ∷ codes "cmd"
          ∷ [],
    )
    ∷ []
required_params remote_view_file =
    (
      codes "absolutePath",
      codes "absolutePath"
          ∷ codes "AbsolutePath"
          ∷ codes "path"
          ∷ codes "filePath"
          ∷ codes "file_path"
          ∷ [],
    )
    ∷ []
required_params remote_replace_file_content =
    (codes "targetFile", codes "targetFile" ∷ codes "TargetFile" ∷ codes "path" ∷ codes "file" ∷ [])
    ∷ (
      codes "targetContent",
      codes "targetContent" ∷ codes "TargetContent" ∷ codes "oldText" ∷ codes "old_text" ∷ [],
    )
    ∷ []
required_params remote_write_file =
    (codes "targetFile", codes "targetFile" ∷ codes "TargetFile" ∷ codes "path" ∷ codes "file" ∷ [])
    ∷ []
required_params remote_list_dir =
    (
      codes "directoryPath",
      codes "directoryPath" ∷ codes "DirectoryPath" ∷ codes "path" ∷ codes "dir_path" ∷ [],
    )
    ∷ []
required_params remote_upload_file =
    (codes "localPath", codes "localPath" ∷ codes "LocalPath" ∷ codes "source" ∷ [])
    ∷ (codes "remotePath", codes "remotePath" ∷ codes "RemotePath" ∷ codes "destination" ∷ [])
    ∷ []
required_params remote_download_file =
    (codes "remotePath", codes "remotePath" ∷ codes "RemotePath" ∷ codes "source" ∷ [])
    ∷ (codes "localPath", codes "localPath" ∷ codes "LocalPath" ∷ codes "destination" ∷ [])
    ∷ []

-- The first parameter that is missing, or empty.
abbrev pub first_missing : Request → List (Bytes × List Bytes) → Option Bytes
first_missing req [] = none
first_missing req ((name, keys) ∷ more) =
    let rest = first_missing req more in
    if eqb (get_param_string req keys) [] then some name else rest

-- A call if none is missing, else the error that names the first.
abbrev pub Fits : Option Bytes → Result Bytes ClientCall → Type 0
Fits none r = (c : ClientCall) × (r ≡ ok c) × IsComplete c
Fits (some name) r = r ≡ err (name ++ codes " is required")

required-Fits :
    (name v : Bytes) (call : Bytes → Result Bytes ClientCall) (rest : Option Bytes)
    → (v ≢ [] → Fits rest (call v))
    → Fits (if eqb v [] then some name else rest) (required name v call)
unfolding required
required-Fits name v call rest fits = elim (Bool-cases (eqb v [])) [
  | inl e ↦ rw e refl
  | inr e ↦ rw e (fits (λ blank. absurd (false≢true (sym e ∙ (eqb_iff v []).1 blank))))
]

-- The nine tools that hand their arguments to a method of the client: such a tool calls the method
-- exactly if none of its required parameters is missing or empty, and then with the arguments complete;
-- else it answers the error that names the first one missing.
pub tool_call-Fits :
    (req : Request) (tool : Tool)
    → Fits (first_missing req (required_params tool)) (tool_call req tool)
unfolding tool_call connect_call set_sudo_call run_call view_call replace_call write_call
    list_dir_call upload_call download_call
tool_call-Fits req remote_connect = required-Fits _ _ _ none (λ h. (_, refl, h))
tool_call-Fits req remote_set_sudo_password = required-Fits _ _ _ none (λ h. (_, refl, h))
tool_call-Fits req remote_run_command = required-Fits _ _ _ none (λ h. (_, refl, h))
tool_call-Fits req remote_view_file = required-Fits _ _ _ none (λ h. (_, refl, h))
tool_call-Fits req remote_replace_file_content =
    required-Fits _ _ _ _ (λ h. required-Fits _ _ _ none (λ k. (_, refl, both h k)))
tool_call-Fits req remote_write_file = required-Fits _ _ _ none (λ h. (_, refl, h))
tool_call-Fits req remote_list_dir = required-Fits _ _ _ none (λ h. (_, refl, h))
tool_call-Fits req remote_upload_file =
    required-Fits _ _ _ _ (λ h. required-Fits _ _ _ none (λ k. (_, refl, both h k)))
tool_call-Fits req remote_download_file =
    required-Fits _ _ _ _ (λ h. required-Fits _ _ _ none (λ k. (_, refl, both h k)))
