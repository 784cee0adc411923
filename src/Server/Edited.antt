-- ===== src/Server/Edited.antt =====
-- A request to replace text in a file, from its parameters to the file on the remote host.
use mcp_ssh_workspace.Common.{ℕ, ◌≡◌, ◌∙◌, Bool, some, List, Bytes, codes}
use mathlib.Core.Path.{subst}
use mcp_ssh_workspace.Common.Int.{ℤ}
use mcp_ssh_workspace.Common.Result.{Result, ok, err, panic}
use mcp_ssh_workspace.Remote.{resolve_path}
use mcp_ssh_workspace.Remote.Edit as Edit
use mcp_ssh_workspace.Remote.Edit.{ReplaceError, ReplaceResult, ReplaceArgs, edit_of}
use mcp_ssh_workspace.Remote.Edit.Effects.{replace_file_content-Edited}
use mcp_ssh_workspace.Remote.Writing.{Contents}
use mcp_ssh_workspace.Tools.{Request, json}
use mcp_ssh_workspace.Tools.Calls.{
  replace_file_content, remote_replace_file_content, replace_call, tool_call,
}
use mcp_ssh_workspace.Tools.Task.{TaskEffect}
use mcp_ssh_workspace.Server.{Outside, Moment, State, replace_result, Served, with_world}
use mcp_ssh_workspace.Server.Files.{replace_reply, serve_replace}
use mcp_ssh_workspace.Server.Tools.{calls, after_params, execute, serve}
use mcp_ssh_workspace.Server.Replied.{IsFine, Replies, online, files-Replies, required-Replies}

abbrev pub replace_args : Bytes → Bytes → ℤ → ℤ → Bool → ReplaceArgs
replace_args target replacement start_line end_line allow_multiple = record {
  target_content = target;
  replacement_content = replacement;
  start_line = start_line;
  end_line = end_line;
  allow_multiple = allow_multiple;
}

module _ {W V : Type 0} (o : Outside W V) (laws : (h : ℕ) → Contents (o.sftp h)) (r : ReplaceResult)
    (effects : List TaskEffect) (st' : State W V) where
  abbrev Tells : Served W V → Type 0
  Tells a = Replies o (json (replace_result r)) effects st' a

  json-IsFine : IsFine (json (replace_result r))
  json-IsFine m e = cc

  replace_reply_lem :
      (a : Result ReplaceError ReplaceResult × W) (st : State W V)
      → Tells (replace_reply a st)
      → (a.0 ≡ ok r) × (with_world a.1 st ≡ st')
  unfolding replace_reply
  replace_reply_lem (ok q, w) st e = (cc, cc)
  replace_reply_lem (err why, w) st e = absurd cc
  replace_reply_lem (panic, w) st e = absurd cc

  -- In the first state the file held a text, in the second one it holds the edited text.
  abbrev pub Edited : Bytes → ReplaceArgs → State W V → State W V → Type 0
  Edited target_file args before after =
      let path = resolve_path after.client.current_cwd target_file in
      (h : ℕ) × (old : Bytes) × (new : Bytes) × (n : ℕ) × ((laws h).contents path before.world
        ≡ some old)
      × (edit_of args old ≡ ok (new, n))
      × ((laws h).contents path after.world ≡ some new)
      × (r ≡ Edit.replace_result path new n)

  serve_replace-Edited :
      (now : ℕ) (target_file : Bytes) (args : ReplaceArgs) (st : State W V)
      → Tells (serve_replace o now target_file args st)
      → Edited target_file args (online o st) st'
  unfolding serve_replace
  serve_replace-Edited now target_file args st e =
      let (h, replied) =
        files-Replies o (json (replace_result r)) effects st'
          (codes "Failed to replace file content: ") _ st json-IsFine e in
      let cwd = (online o st).client.current_cwd in
      let w = (online o st).world in
      let done = Edit.replace_file_content (o.sftp h) cwd now target_file args w in
      let (fine, same) = replace_reply_lem done (online o st) replied in
      let (old, new, n, before, edit, after, result) =
        replace_file_content-Edited (o.sftp h) (laws h) cwd now target_file args w r fine in
      subst (Edited target_file args (online o st)) same
        (h, old, new, n, before, edit, after, result)

  -- If `remote_replace_file_content` replies a result, the parameters named a file and an edit. The
  -- file held a text when the connection was there, and holds the edited text now; the result tells
  -- of this edit.
  pub replace_tool-Edited :
      (m : Moment) (req : Request) (st : State W V)
      → serve o m (calls remote_replace_file_content) req st
        ≡ some (json (replace_result r), effects, st')
      → (target_file : Bytes) × (target : Bytes) × (replacement : Bytes) × (start_line : ℤ)
        × (end_line : ℤ) × (several : Bool) × (tool_call req remote_replace_file_content
            ≡ ok (replace_file_content target_file target replacement start_line end_line several))
        × Edited target_file
            (replace_args target replacement start_line end_line several)
            (online o st)
            st'
  unfolding serve tool_call replace_call after_params execute
  replace_tool-Edited m req st e =
      let r' = json (replace_result r) in
      let (named, next) = required-Replies o r' effects st' m _ _ _ st json-IsFine e in
      let (given, replied) = required-Replies o r' effects st' m _ _ _ st json-IsFine next in
      let edited = serve_replace-Edited m.nanos _ _ st replied in
      (_, _, _, _, _, _, named ∙ given, edited)
