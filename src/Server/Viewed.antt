-- ===== src/Server/Viewed.antt =====
-- A request to view a file, from its parameters to the lines of the file on the remote host.
use mcp_ssh_workspace.Common.{ℕ, ◌≡◌, ◌∙◌, some, List, Bytes, codes}
use mathlib.Core.Path.{subst}
use mcp_ssh_workspace.Common.Int.{ℤ}
use mcp_ssh_workspace.Common.Result.{Result, ok, err, panic}
use mcp_ssh_workspace.Files.View.{ViewResult, scan_lines}
use mcp_ssh_workspace.Remote.{resolve_path}
use mcp_ssh_workspace.Remote.View as View
use mcp_ssh_workspace.Remote.View.{ViewFileError, ViewArgs}
use mcp_ssh_workspace.Remote.View.Shown.{Shown, view_file-Shown, view_file_keeps}
use mcp_ssh_workspace.Remote.Writing.{Contents}
use mcp_ssh_workspace.Tools.{Request, json}
use mcp_ssh_workspace.Tools.Calls.{view_file, remote_view_file, view_call, tool_call}
use mcp_ssh_workspace.Tools.Task.{TaskEffect}
use mcp_ssh_workspace.Server.{Outside, Moment, State, view_result, Served, with_world}
use mcp_ssh_workspace.Server.Files.{view_reply, serve_view}
use mcp_ssh_workspace.Server.Tools.{calls, after_params, execute, serve}
use mcp_ssh_workspace.Server.Replied.{IsFine, Replies, online, files-Replies, required-Replies}

abbrev pub view_args : ℤ → ℤ → ℤ → ViewArgs
view_args start_line end_line max_bytes = record {
  start_line = start_line;
  end_line = end_line;
  max_bytes = max_bytes;
}

module _ {W V : Type 0} (o : Outside W V) (laws : (h : ℕ) → Contents (o.sftp h)) (r : ViewResult)
    (effects : List TaskEffect) (st' : State W V) where
  abbrev Viewed : Served W V → Type 0
  Viewed a = Replies o (json (view_result r)) effects st' a

  json-IsFine : IsFine (json (view_result r))
  json-IsFine m e = cc

  view_reply_lem :
      (a : Result ViewFileError ViewResult × W) (st : State W V)
      → Viewed (view_reply a st)
      → (a.0 ≡ ok r) × (with_world a.1 st ≡ st')
  unfolding view_reply
  view_reply_lem (ok q, w) st e = (cc, cc)
  view_reply_lem (err why, w) st e = absurd cc
  view_reply_lem (panic, w) st e = absurd cc

  -- The file of the path holds lines that the result shows.
  abbrev pub Shows : Bytes → ViewArgs → State W V → Type 0
  Shows path args st =
      (h : ℕ) × (text : Bytes) × (ls : List Bytes) × ((laws h).contents
          (resolve_path st.client.current_cwd path) st.world
        ≡ some text)
      × (scan_lines text ≡ some ls)
      × Shown ls args r

  -- Before the view, and behind it.
  pub serve_view-Shows :
      (path : Bytes) (args : ViewArgs) (st : State W V)
      → Viewed (serve_view o path args st)
      → Shows path args (online o st) × Shows path args st'
  unfolding serve_view
  serve_view-Shows path args st e =
      let (h, replied) =
        files-Replies o (json (view_result r)) effects st' (codes "Failed to view file: ") _ st
          json-IsFine e in
      let c = (online o st).client in
      let w = (online o st).world in
      let viewed = View.view_file (o.sftp h) c.current_cwd path args w in
      let (fine, same) = view_reply_lem viewed (online o st) replied in
      let (text, ls, held, lines, shown) =
        view_file-Shown (o.sftp h) (laws h) c.current_cwd path args w r fine in
      let keeps =
        view_file_keeps (o.sftp h) (laws h) c.current_cwd path args w
          (resolve_path c.current_cwd path) in
      (
        (h, text, ls, held, lines, shown),
        subst (Shows path args) same (h, text, ls, keeps ∙ held, lines, shown),
      )

  -- If `remote_view_file` replies a result, the parameters named a file, and the result shows the
  -- slice that they asked for of its lines, which it holds still.
  pub view_tool-Shown :
      (m : Moment) (req : Request) (st : State W V)
      → serve o m (calls remote_view_file) req st ≡ some (json (view_result r), effects, st')
      → (path : Bytes) × (start_line : ℤ) × (end_line : ℤ) × (offset : ℤ) × (max_bytes : ℤ)
        × (tool_call req remote_view_file
            ≡ ok (view_file path start_line end_line offset max_bytes))
        × (h : ℕ) × (text : Bytes) × (ls : List Bytes) × ((laws h).contents
              (resolve_path st'.client.current_cwd path)
              st'.world
            ≡ some text)
        × (scan_lines text ≡ some ls)
        × Shown ls (view_args start_line end_line max_bytes) r
  unfolding serve tool_call view_call after_params execute
  view_tool-Shown m req st e =
      let (given, replied) =
        required-Replies o (json (view_result r)) effects st' m _ _ _ st json-IsFine e in
      let (_, (h, text, ls, held, lines, shown)) = serve_view-Shows _ _ st replied in
      (_, _, _, _, _, given, h, text, ls, held, lines, shown)
