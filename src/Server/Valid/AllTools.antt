-- ===== src/Server/Valid/AllTools.antt =====
-- Every tool, whatever the request.
use mcp_ssh_workspace.Common.{◌≡◌, ◌≢◌, ◌⊎◌, inl, inr, refl, none, List, Bytes, Bool}
use mcp_ssh_workspace.Common.Int.{ℤ}
use mcp_ssh_workspace.Common.Result.{Result, ok, err, panic}
use mcp_ssh_workspace.Files.Replace.{edit_text}
use mcp_ssh_workspace.Tunnels.{TunnelManager}
use mcp_ssh_workspace.Tunnels.Runs.{Run}
use mcp_ssh_workspace.Tools.{Request, ToolResult}
use mcp_ssh_workspace.Tools.Calls.{
  Tool, ClientCall, connect_to, set_sudo_password, run_command, view_file, replace_file_content,
  write_file, list_dir, upload_file, download_file, tool_call,
}
use mcp_ssh_workspace.Tools.Calls.Required.{tool_call_answers}
use mcp_ssh_workspace.Tools.Task.{TaskReply, TaskEffect, manage_task}
use mcp_ssh_workspace.Tools.Tunnel.{TunnelReply, Answer, tunnel_tool}
use mcp_ssh_workspace.Tools.Tunnel.Runs.{tunnel_tool-Run}
use mcp_ssh_workspace.Server.{Outside, Moment, State, Served}
use mcp_ssh_workspace.Server.Tools.{
  ServerTool, calls, remote_disconnect, remote_manage_task, remote_session_info, remote_grep_search,
  remote_find_by_name, remote_tunnel, task_answer, tunnel_answer, execute, after_params, serve,
}
use mcp_ssh_workspace.Server.Valid.{Sound, Room, Answers, answered}
use mcp_ssh_workspace.Server.Valid.FileTools.{
  view_tool-Answers, write_tool-Answers, list_tool-Answers, upload_tool-Answers,
  download_tool-Answers, replace_tool-Answers,
}
use mcp_ssh_workspace.Server.Valid.CommandTools.{
  connect_tool-Answers, disconnect_tool-Answers, sudo_tool-Answers, run_tool-Answers,
  info_tool-Answers, grep_tool-Answers, find_tool-Answers,
}

-- A panic of the call to replace text, which comes of the edit of a text with its arguments.
abbrev pub EditPanics : {W V : Type 0} → ClientCall → Served W V → Type 0
EditPanics c a =
    (path target replacement : Bytes) × (start_line end_line : ℤ) × (allow_multiple : Bool) × (c
      ≡ replace_file_content path target replacement start_line end_line allow_multiple)
    × (a ≡ none)
    × (old : Bytes) × (edit_text old target replacement start_line end_line allow_multiple ≡ panic)

module _ {W V : Type 0} (o : Outside W V) (m : Moment)
    (listens : (address : Bytes) → m.listen address ≢ panic) (st : State W V)
    (sound : Sound st.client) (room : Room st.client) where
  call-Answers : (c : ClientCall) → Answers (execute o m c st) ⊎ EditPanics c (execute o m c st)
  unfolding execute
  call-Answers (connect_to host port user key_path password sudo_password) =
      inl (connect_tool-Answers o st sound host port user key_path password sudo_password)
  call-Answers (set_sudo_password pw) = inl (sudo_tool-Answers o st sound pw)
  call-Answers (run_command cmd cwd is_daemon wait_ms sudo_password run_as_sudo) =
      inl (run_tool-Answers o st sound room cmd cwd is_daemon wait_ms _)
  call-Answers (view_file path start_line end_line offset max_bytes) =
      inl (view_tool-Answers o st sound path _)
  call-Answers (replace_file_content path target replacement start_line end_line allow_multiple) =
      elim (replace_tool-Answers o st sound m.nanos path (record {
        target_content = target;
        replacement_content = replacement;
        start_line = start_line;
        end_line = end_line;
        allow_multiple = allow_multiple;
      })) [
        | inl answers ↦ inl answers
        | inr (none_at, old, why) ↦ inr (
          path, target, replacement, start_line, end_line, allow_multiple, refl, none_at, old, why,
        )
      ]
  call-Answers (write_file path content overwrite) =
      inl (write_tool-Answers o st sound path content overwrite)
  call-Answers (list_dir path) = inl (list_tool-Answers o st sound path)
  call-Answers (upload_file local_path remote_path overwrite) =
      inl (upload_tool-Answers o st sound local_path remote_path overwrite)
  call-Answers (download_file remote_path local_path overwrite) =
      inl (download_tool-Answers o st sound remote_path local_path overwrite)

  params-Answers :
      (r : Result Bytes ClientCall)
      → r ≢ panic
      → Answers (after_params o m r st)
        ⊎ ((c : ClientCall) × (r ≡ ok c) × EditPanics c (after_params o m r st))
  unfolding after_params
  params-Answers (ok c) n = elim (call-Answers c) [
    | inl answers ↦ inl answers
    | inr panics ↦ inr (c, refl, panics)
  ]
  params-Answers (err message) n = inl (answered _ _ sound)
  params-Answers panic n = absurd (n refl)

  task-Answers : (r : ToolResult TaskReply × List TaskEffect) → Answers (task_answer r st)
  unfolding task_answer
  task-Answers (reply, effects) = (_, effects, st, refl, sound)

  tunnel-Answers :
      (a : Answer)
      → ((r : ToolResult TunnelReply) × (tm : TunnelManager) × (a ≡ ok (r, tm)) × Run tm)
      → Answers (tunnel_answer a st)
  unfolding tunnel_answer
  tunnel-Answers a (r, tm, e, run) = rw e (answered _ _ (sound.0, run))

  -- Whatever the request, a tool replies, and leaves the registry of the tasks well formed and a
  -- manager of the tunnels that calls lead to, so long as the two counters are far from their end and
  -- `net.Listen` does not panic. The exception is a call to replace text whose edit panics.
  pub serve-Answers :
      (tool : ServerTool) (req : Request)
      → Answers (serve o m tool req st)
        ⊎ ((t : Tool) × (c : ClientCall) × (tool ≡ calls t)
            × (tool_call req t ≡ ok c)
            × EditPanics c (serve o m tool req st))
  unfolding serve
  serve-Answers (calls tool) req =
      elim (params-Answers (tool_call req tool) (tool_call_answers req tool)) [
        | inl answers ↦ inl answers
        | inr (c, asked, panics) ↦ inr (tool, c, refl, asked, panics)
      ]
  serve-Answers remote_disconnect req = inl (disconnect_tool-Answers o st sound)
  serve-Answers remote_manage_task req =
      inl (task-Answers (manage_task m.stdin_answer req st.client.task_mgr))
  serve-Answers remote_session_info req = inl (info_tool-Answers o st sound room)
  serve-Answers remote_grep_search req = inl (grep_tool-Answers o st sound room req)
  serve-Answers remote_find_by_name req = inl (find_tool-Answers o st sound room req)
  serve-Answers remote_tunnel req = inl (
      tunnel-Answers (tunnel_tool m.listen m.clock req st.client.tunnel_mgr)
        (tunnel_tool-Run m.listen m.clock req st.client.tunnel_mgr sound.1 room.1 listens))
