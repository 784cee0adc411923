-- ===== src/Server/Commands.antt =====
-- The replies of the tools that connect, and of those that run a command.
use mcp_ssh_workspace.Common.{
  Bool, false, Option, none, some, [], ◌∷◌, ◌++◌, Bytes, codes, eqb, if◌then◌else◌,
}
use mcp_ssh_workspace.Common.Int.{ℤ, pos}
use mcp_ssh_workspace.Common.Result.{Result, ok, err, panic}
use mcp_ssh_workspace.Text.Trim.{trim_space}
use mcp_ssh_workspace.Text.Quote.{quote}
use mcp_ssh_workspace.Tunnels.{TunnelError}
use mcp_ssh_workspace.Client.{
  Client, ConnectError, has_sudo_password, set_sudo_password, close, connect_to,
}
use mcp_ssh_workspace.Client.Run.{ExecResult, CommandOptions, RunError, run_command}
use mcp_ssh_workspace.Tools.{
  Request, get_param_string, get_param_int, get_param_bool, get_param_string_slice, ToolResult,
  text, json, error,
}
use mcp_ssh_workspace.Tools.Search.{grep_command, find_command, search_reply}
use mcp_ssh_workspace.Server.Messages.Connection.{connect_message, run_message}
use mcp_ssh_workspace.Server.{
  Outside, State, Value, exec_result, session_info, Served, answer, with_connection,
}

abbrev pub no_options : CommandOptions
no_options = record { sudo_password = []; run_as_sudo = false }

-- The value of a tool that answers no JSON.
abbrev pub plain : ToolResult ⊥ → ToolResult Value
plain (text t) = text t
plain (json v) = absurd v
plain (error e) = error e

module _ {W V : Type 0} where
  unfoldable pub connect_reply :
      Bytes → Result TunnelError (Option ConnectError × Client × W) → State W V → Served W V
  connect_reply host (ok (none, c, w)) st =
      answer
        (text (codes "Successfully connected to " ++ (host ++ (codes ". CWD: " ++ c.current_cwd))))
        (with_connection c w st)
  connect_reply host (ok (some e, c, w)) st =
      answer (error (codes "Failed to connect to " ++ (host ++ (codes ": " ++ connect_message e))))
        (with_connection c w st)
  connect_reply host (err e) st = none
  connect_reply host panic st = none

  unfoldable pub disconnect_reply : Result TunnelError (Client × W) → State W V → Served W V
  disconnect_reply (ok (c, w)) st =
      answer (text (codes "Disconnected from remote SSH host.")) (with_connection c w st)
  disconnect_reply (err e) st = none
  disconnect_reply panic st = none

  -- `reply` makes the reply of a result; `failed` stands in front of an error.
  unfoldable pub run_reply :
      Bool
      → Bytes
      → (ExecResult → Client → ToolResult Value)
      → Result RunError ExecResult × Client × W
      → State W V
      → Served W V
  run_reply is_daemon failed reply (ok res, c, w) st = answer (reply res c) (with_connection c w st)
  run_reply is_daemon failed reply (err e, c, w) st =
      answer (error (failed ++ run_message is_daemon e)) (with_connection c w st)
  run_reply is_daemon failed reply (panic, c, w) st = none

  module _ (o : Outside W V) where
    unfoldable pub serve_connect :
        Bytes → ℤ → Bytes → Bytes → Bytes → Bytes → State W V → Served W V
    unfolding connect_reply
    serve_connect host port user key_path password sudo_password st =
        connect_reply host
          (connect_to o.machine o.network host port user key_path password sudo_password st.client
            st.world)
          st

    unfoldable pub serve_disconnect : State W V → Served W V
    unfolding disconnect_reply
    serve_disconnect st = disconnect_reply (close o.machine o.network st.client st.world) st

    unfoldable pub serve_set_sudo : Bytes → State W V → Served W V
    serve_set_sudo pw st =
        answer (text (codes "Sudo password successfully configured for remote session."))
          (record st { client = set_sudo_password pw st.client })

    unfoldable pub run_with :
        (ExecResult → Client → ToolResult Value)
        → Bytes
        → Bytes
        → Bytes
        → Bool
        → ℤ
        → CommandOptions
        → State W V
        → Served W V
    unfolding run_reply
    run_with reply failed cmd cwd is_daemon wait_ms opt st =
        run_reply is_daemon failed reply
          (run_command o.machine o.network o.sessions o.is_print cmd cwd is_daemon wait_ms opt
            st.client st.world)
          st

    unfoldable pub serve_run : Bytes → Bytes → Bool → ℤ → CommandOptions → State W V → Served W V
    serve_run cmd cwd is_daemon wait_ms opt st =
        run_with (λ res c. json (exec_result res)) (codes "Execution error: ") cmd cwd is_daemon
          wait_ms opt st

    unfoldable pub serve_session_info : State W V → Served W V
    serve_session_info st =
        run_with
          (λ res c. json (session_info c.current_cwd (trim_space res.stdout) (has_sudo_password c)))
          (codes "Failed to get session info: ")
          (codes "uname -a && cat /etc/os-release 2>/dev/null | head -n 5 && whoami && hostname")
          st.client.current_cwd false (pos 5000) no_options st

    -- A command of a search tool.
    unfoldable pub search_with : Bytes → Bytes → Bytes → Bytes → State W V → Served W V
    search_with error_name completed no_match cmd st =
        run_with (λ res c. plain (search_reply completed no_match res.stdout res.stderr)) error_name
          cmd st.client.current_cwd false (pos 10000) no_options st

    unfoldable pub needed : Bytes → Bytes → (Bytes → Served W V) → State W V → Served W V
    needed name v go_on st =
        if eqb v [] then answer (error (name ++ codes " is required")) st else go_on v

    abbrev no_grep_match : Bytes → Bytes → Bytes
    no_grep_match query search_path =
        codes "No matches found for " ++ (quote o.is_print query ++ (codes " in " ++ search_path))

    unfoldable pub serve_grep : Request → State W V → Served W V
    serve_grep req st =
        needed (codes "searchPath")
          (get_param_string req (codes "searchPath" ∷ codes "SearchPath" ∷ codes "path" ∷ []))
          (λ search_path.
            needed (codes "query") (get_param_string req (codes "query" ∷ codes "Query" ∷ []))
              (λ query.
                search_with (codes "Search error: ") (codes "Search completed with error: ")
                  (no_grep_match query search_path)
                  (grep_command o.is_print query search_path
                    (get_param_bool req false
                      (codes "isRegex" ∷ codes "IsRegex" ∷ codes "is_regex" ∷ []))
                    (get_param_bool req false (
                      codes "caseInsensitive"
                      ∷ codes "CaseInsensitive"
                      ∷ codes "case_insensitive"
                      ∷ []))
                    (get_param_string_slice req (codes "includes" ∷ codes "Includes" ∷ [])))
                  st)
              st)
          st

    abbrev type_of : Bytes → Bytes
    type_of file_type = if eqb file_type [] then codes "any" else file_type

    abbrev no_find_match : Bytes → Bytes → Bytes
    no_find_match pattern search_dir =
        codes "No files or directories matching "
        ++ (quote o.is_print pattern ++ (codes " found in " ++ search_dir))

    unfoldable pub serve_find : Request → State W V → Served W V
    serve_find req st =
        needed (codes "searchDirectory")
          (get_param_string req
            (codes "searchDirectory" ∷ codes "SearchDirectory" ∷ codes "path" ∷ codes "dir" ∷ []))
          (λ search_dir.
            needed (codes "pattern") (get_param_string req (codes "pattern" ∷ codes "Pattern" ∷ []))
              (λ pattern.
                search_with (codes "Find error: ") (codes "Find completed with error: ")
                  (no_find_match pattern search_dir)
                  (find_command o.is_print pattern search_dir
                    (type_of (get_param_string req (codes "type" ∷ codes "Type" ∷ [])))
                    (get_param_int req (pos 0)
                      (codes "maxDepth" ∷ codes "MaxDepth" ∷ codes "max_depth" ∷ [])))
                  st)
              st)
          st
