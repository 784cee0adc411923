-- ===== src/Server/RoundTrip.antt =====
-- A request to write a file, and one to view it next.
use mcp_ssh_workspace.Common.{ℕ, ◌≡◌, sym, ap, ◌∙◌, Bool, Option, some, List, Bytes}
use mathlib.Core.Path.{subst}
use mcp_ssh_workspace.Common.Int.{ℤ}
use mcp_ssh_workspace.Common.Result.{ok}
use mcp_ssh_workspace.Files.View.{ViewResult, scan_lines}
use mcp_ssh_workspace.Remote.{resolve_path}
use mcp_ssh_workspace.Remote.View.Shown.{Shown}
use mcp_ssh_workspace.Remote.Writing.{Contents}
use mcp_ssh_workspace.Tools.{Request, text, json}
use mcp_ssh_workspace.Tools.Calls.{
  view_file, write_file, remote_view_file, remote_write_file, tool_call,
}
use mcp_ssh_workspace.Tools.Task.{TaskEffect}
use mcp_ssh_workspace.Server.{Outside, Moment, State, view_result}
use mcp_ssh_workspace.Server.Tools.{calls, after_params, execute, serve}
use mcp_ssh_workspace.Server.Replied.{online}
use mcp_ssh_workspace.Server.Written.{serve_write-Written}
use mcp_ssh_workspace.Server.Viewed.{view_args, Shows, serve_view-Shows}

some_bytes : (a b : Bytes) → ◌≡◌ {A = Option Bytes} (some a) (some b) → a ≡ b
some_bytes a b e = cc

-- Every SFTP connection is one to the same files.
module _ {W V : Type 0} (o : Outside W V) (laws : (h : ℕ) → Contents (o.sftp h))
    (same_files : (h j : ℕ) (p : Bytes) (w : W) → (laws h).contents p w ≡ (laws j).contents p w)
    (target content path : Bytes) (overwrite : Bool) (start_line end_line offset max_bytes : ℤ)
    (write_request view_request : Request) where
  -- A request to write a file, which replies no error, and a request to view the same file, while the
  -- connection is still there: a view that replies a result shows the lines of the content.
  pub write-view :
      (m n : Moment) (t : Bytes) (r : ViewResult) (effects others : List TaskEffect)
      (st st' st'' : State W V)
      → tool_call write_request remote_write_file ≡ ok (write_file target content overwrite)
      → tool_call view_request remote_view_file
        ≡ ok (view_file path start_line end_line offset max_bytes)
      → serve o m (calls remote_write_file) write_request st ≡ some (text t, effects, st')
      → online o st' ≡ st'
      → resolve_path st'.client.current_cwd path ≡ resolve_path st'.client.current_cwd target
      → serve o n (calls remote_view_file) view_request st'
        ≡ some (json (view_result r), others, st'')
      → (ls : List Bytes) × (scan_lines content ≡ some ls)
        × Shown ls (view_args start_line end_line max_bytes) r
  unfolding serve after_params execute
  write-view m n t r effects others st st' st'' writes views written alive same viewed =
      let (h, full) =
        serve_write-Written o laws t effects st' target content overwrite st
          (rw writes at written) in
      let args = view_args start_line end_line max_bytes in
      let (shows, _) = serve_view-Shows o laws r others st'' path args st' (rw views at viewed) in
      let (j, held_text, ls, held, lines, shown) =
        subst (Shows o laws r others st'' path args) alive shows in
      let there = same_files j h (resolve_path st'.client.current_cwd path) st'.world in
      let path_same = ap (λ p. (laws h).contents p st'.world) same in
      let texts = some_bytes held_text content (sym held ∙ there ∙ path_same ∙ full) in
      (ls, ap scan_lines (sym texts) ∙ lines, shown)
