-- ===== src/Server/Tools.antt =====
-- Which handler a tool has, as `RegisterTools` of internal/tools/register.go adds them.
use mcp_ssh_workspace.Common.{none, some, List, Bytes}
use mcp_ssh_workspace.Common.Result.{Result, ok, err, panic}
use mcp_ssh_workspace.Tools.{Request, ToolResult, text, json, error}
use mcp_ssh_workspace.Tools.Task.{TaskReply, TaskEffect, manage_task}
use mcp_ssh_workspace.Tools.Tunnel.{Answer, tunnel_tool}
use mcp_ssh_workspace.Tools.Calls.{
  Tool, ClientCall, connect_to, set_sudo_password, run_command, view_file, replace_file_content,
  write_file, list_dir, upload_file, download_file, tool_call,
}
use mcp_ssh_workspace.Server.{
  Outside, Moment, State, Value, task_reply, tunnel_reply, Served, answer,
}
use mcp_ssh_workspace.Server.Commands.{
  serve_connect, serve_disconnect, serve_set_sudo, serve_run, serve_session_info, serve_grep,
  serve_find,
}
use mcp_ssh_workspace.Server.Files.{
  serve_view, serve_replace, serve_write, serve_list, serve_upload, serve_download,
}

pub data ServerTool : Type 0 where
  calls : Tool → ServerTool
  remote_disconnect remote_manage_task remote_session_info remote_grep_search remote_find_by_name
        remote_tunnel :
      ServerTool

abbrev pub as_value : {A : Type 0} → (A → Value) → ToolResult A → ToolResult Value
as_value value (text t) = text t
as_value value (json v) = json (value v)
as_value value (error e) = error e

module _ {W V : Type 0} where
  unfoldable pub task_answer : ToolResult TaskReply × List TaskEffect → State W V → Served W V
  task_answer (reply, effects) st = some (as_value task_reply reply, effects, st)

  unfoldable pub tunnel_answer : Answer → State W V → Served W V
  tunnel_answer (ok (reply, tm)) st =
      answer (as_value tunnel_reply reply)
        (record st { client = record st.client { tunnel_mgr = tm } })
  tunnel_answer (err e) st = none
  tunnel_answer panic st = none

  module _ (o : Outside W V) (m : Moment) where
    -- What the handler does with the arguments.
    unfoldable pub execute : ClientCall → State W V → Served W V
    execute (connect_to host port user key_path password sudo_password) st =
        serve_connect o host port user key_path password sudo_password st
    execute (set_sudo_password pw) st = serve_set_sudo o pw st
    execute (run_command cmd cwd is_daemon wait_ms sudo_password run_as_sudo) st =
        serve_run o cmd cwd is_daemon wait_ms
          (record { sudo_password = sudo_password; run_as_sudo = run_as_sudo }) st
    execute (view_file path start_line end_line offset max_bytes) st =
        serve_view o path
          (record { start_line = start_line; end_line = end_line; max_bytes = max_bytes }) st
    execute (replace_file_content path target replacement start_line end_line allow_multiple) st =
        serve_replace o m.nanos path
          (record {
            target_content = target;
            replacement_content = replacement;
            start_line = start_line;
            end_line = end_line;
            allow_multiple = allow_multiple;
          })
          st
    execute (write_file path content overwrite) st = serve_write o path content overwrite st
    execute (list_dir path) st = serve_list o path st
    execute (upload_file local_path remote_path overwrite) st =
        serve_upload o local_path remote_path overwrite st
    execute (download_file remote_path local_path overwrite) st =
        serve_download o remote_path local_path overwrite st

    unfoldable pub after_params : Result Bytes ClientCall → State W V → Served W V
    unfolding execute
    after_params (ok call) st = execute call st
    after_params (err message) st = answer (error message) st
    after_params panic st = none

    unfoldable pub serve : ServerTool → Request → State W V → Served W V
    unfolding after_params task_answer tunnel_answer
    serve (calls tool) req st = after_params (tool_call req tool) st
    serve remote_disconnect req st = serve_disconnect o st
    serve remote_manage_task req st =
        task_answer (manage_task m.stdin_answer req st.client.task_mgr) st
    serve remote_session_info req st = serve_session_info o st
    serve remote_grep_search req st = serve_grep o req st
    serve remote_find_by_name req st = serve_find o req st
    serve remote_tunnel req st =
        tunnel_answer (tunnel_tool m.listen m.clock req st.client.tunnel_mgr) st
