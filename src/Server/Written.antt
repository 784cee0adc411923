-- ===== src/Server/Written.antt =====
-- A request to write a file, from its parameters to the file on the remote host.
use mcp_ssh_workspace.Common.{
  ◌≢◌, [], ◌∷◌, ℕ, ◌≡◌, refl, Bool, Option, none, some, List, Bytes, codes,
}
use mathlib.Core.Path.{subst}
use mcp_ssh_workspace.Common.Result.{ok}
use mcp_ssh_workspace.Remote.{FileError, resolve_path}
use mcp_ssh_workspace.Remote as Remote
use mcp_ssh_workspace.Remote.Writing.{Contents, write_file_writes}
use mcp_ssh_workspace.Tools.{Request, text, get_param_string}
use mcp_ssh_workspace.Tools.Calls.Required.{tool_call-IsComplete}
use mcp_ssh_workspace.Tools.Calls.{write_file, remote_write_file, write_call, tool_call}
use mcp_ssh_workspace.Tools.Task.{TaskEffect}
use mcp_ssh_workspace.Server.{Outside, Moment, State, Served, with_world}
use mcp_ssh_workspace.Server.Files.{write_reply, serve_write}
use mcp_ssh_workspace.Server.Tools.{calls, after_params, execute, serve}
use mcp_ssh_workspace.Server.Replied.{IsFine, Replies, online, files-Replies, required-Replies}

module _ {W V : Type 0} (o : Outside W V) (laws : (h : ℕ) → Contents (o.sftp h)) (t : Bytes)
    (effects : List TaskEffect) (st' : State W V) where
  abbrev Says : Served W V → Type 0
  Says a = Replies o (text t) effects st' a

  text-IsFine : IsFine (text t)
  text-IsFine m e = cc

  write_reply_lem :
      (target content : Bytes) (a : Option FileError × W) (st : State W V)
      → Says (write_reply target content a st)
      → (a.0 ≡ none) × (with_world a.1 st ≡ st')
  unfolding write_reply
  write_reply_lem target content (none, w) st e = (refl, cc)
  write_reply_lem target content (some why, w) st e = absurd cc

  -- The file of the path holds the content.
  abbrev Written : Bytes → Bytes → State W V → Type 0
  Written target content st =
      (h : ℕ) × ((laws h).contents (resolve_path st.client.current_cwd target) st.world
        ≡ some content)

  pub serve_write-Written :
      (target content : Bytes) (overwrite : Bool) (st : State W V)
      → Says (serve_write o target content overwrite st)
      → Written target content st'
  unfolding serve_write
  serve_write-Written target content overwrite st e =
      let (h, replied) =
        files-Replies o (text t) effects st' (codes "Failed to write file: ") _ st text-IsFine e in
      let path = resolve_path (online o st).client.current_cwd target in
      let w = (online o st).world in
      let written = Remote.write_file (o.sftp h) path content overwrite w in
      let (fine, same) = write_reply_lem target content written (online o st) replied in
      let (full, _) = write_file_writes (o.sftp h) (laws h) path content overwrite w fine in
      subst (Written target content) same (h, full)

  -- If `remote_write_file` replies a text, the parameters named a file, and the file holds the value of
  -- the content parameter, under the working directory of the client. A request without that
  -- parameter writes an empty file.
  pub write_tool-Written :
      (m : Moment) (req : Request) (st : State W V)
      → serve o m (calls remote_write_file) req st ≡ some (text t, effects, st')
      → let content =
          get_param_string req (codes "codeContent" ∷ codes "CodeContent" ∷ codes "content" ∷ []) in
        (target : Bytes) × (overwrite : Bool) × (target ≢ [])
        × (tool_call req remote_write_file ≡ ok (write_file target content overwrite))
        × (h : ℕ) × ((laws h).contents (resolve_path st'.client.current_cwd target) st'.world
            ≡ some content)
  unfolding serve tool_call write_call after_params execute
  write_tool-Written m req st e =
      let (given, replied) = required-Replies o (text t) effects st' m _ _ _ st text-IsFine e in
      let (h, held) = serve_write-Written _ _ _ st replied in
      (_, _, tool_call-IsComplete req remote_write_file _ given, given, h, held)
