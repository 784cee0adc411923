-- ===== src/Server/Valid/CommandTools.antt =====
-- The tools that connect, and those that run a command.
use mcp_ssh_workspace.Common.{inl, inr, Bool, Bool-cases, Option, none, some, [], Bytes, eqb}
use mcp_ssh_workspace.Common.Int.{ℤ}
use mcp_ssh_workspace.Common.Result.{Result, ok, err, panic, panic-ne-ok, panic-ne-err}
use mcp_ssh_workspace.Tunnels.Runs.{Run-IsValid, called, closed_all}
use mcp_ssh_workspace.Client.{Client, ConnectError, set_sudo_password}
use mcp_ssh_workspace.Client.Closing.{connect_to_managers, close_managers}
use mcp_ssh_workspace.Client.Run.{ExecResult, CommandOptions, RunError}
use mcp_ssh_workspace.Client.Run.Registered.{Registers, run-Registers}
use mcp_ssh_workspace.Client.Run.Valid as Run
use mcp_ssh_workspace.Tools.{Request, ToolResult}
use mcp_ssh_workspace.Server.{Outside, State, Value, Served}
use mcp_ssh_workspace.Server.Commands.{
  connect_reply, disconnect_reply, run_reply, serve_connect, serve_disconnect, serve_set_sudo,
  run_with, serve_run, serve_session_info, search_with, needed, serve_grep, serve_find,
}
use mcp_ssh_workspace.Server.Valid.{Sound, Sound-same, Room, Answers, answered}

module _ {W V : Type 0} (o : Outside W V) where
  connected-Answers :
      (host : Bytes) (r : Option ConnectError × Client × W) (st : State W V)
      → Sound r.1
      → Answers (connect_reply host (ok r) st)
  unfolding connect_reply
  connected-Answers host (none, c, w) st sound = answered _ _ sound
  connected-Answers host (some e, c, w) st sound = answered _ _ sound

  ran-Answers :
      (is_daemon : Bool) (failed : Bytes) (reply : ExecResult → Client → ToolResult Value)
      (c : Client) (x : Result RunError ExecResult × Client × W) (st : State W V)
      → Registers c x
      → Sound x.1
      → Answers (run_reply is_daemon failed reply x st)
  unfolding run_reply
  ran-Answers is_daemon failed reply c (ok r, d, w) st registers sound = answered _ _ sound
  ran-Answers is_daemon failed reply c (err e, d, w) st registers sound = answered _ _ sound
  ran-Answers is_daemon failed reply c (panic, d, w) st (inl (r, e)) sound =
      absurd (panic-ne-ok r e)
  ran-Answers is_daemon failed reply c (panic, d, w) st (inr (why, e, same)) sound =
      absurd (panic-ne-err why e)

  module _ (st : State W V) (sound : Sound st.client) where
    pub connect_tool-Answers :
        (host : Bytes) (port : ℤ) (user key_path password sudo_password : Bytes)
        → Answers (serve_connect o host port user key_path password sudo_password st)
    unfolding serve_connect
    connect_tool-Answers host port user key_path password sudo_password =
        let (valid, run) = sound in
        let (tunnels, r, closed, done, now_tunnels, same_tasks) =
          connect_to_managers o.machine o.network host port user key_path password sudo_password
            st.client st.world (Run-IsValid _ run) in
        let run' = called st.client.tunnel_mgr tunnels run (closed_all _ tunnels closed) in
        rw done (
          connected-Answers host r st (
            Sound-same (record st.client { tunnel_mgr = tunnels }) r.1 same_tasks now_tunnels
              (valid, run')))

    pub disconnect_tool-Answers : Answers (serve_disconnect o st)
    unfolding serve_disconnect disconnect_reply
    disconnect_tool-Answers =
        let (valid, run) = sound in
        let (tunnels, w, closed, done) =
          close_managers o.machine o.network st.client st.world (Run-IsValid _ run) in
        rw done (answered _ _ (valid, called _ tunnels run (closed_all _ tunnels closed)))

    pub sudo_tool-Answers : (pw : Bytes) → Answers (serve_set_sudo o pw st)
    unfolding serve_set_sudo set_sudo_password
    sudo_tool-Answers pw = answered _ _ sound

    module _ (room : Room st.client) where
      run_with-Answers :
          (reply : ExecResult → Client → ToolResult Value) (failed cmd cwd : Bytes)
          (is_daemon : Bool) (wait_ms : ℤ) (opt : CommandOptions)
          → Answers (run_with o reply failed cmd cwd is_daemon wait_ms opt st)
      unfolding run_with
      run_with-Answers reply failed cmd cwd is_daemon wait_ms opt =
          let (valid, run) = sound in
          let (valid', same) =
            Run.run-Keeps o.machine o.network o.sessions o.is_print cmd cwd is_daemon wait_ms opt
              st.client valid room.0 st.world in
          ran-Answers is_daemon failed reply st.client _ st
            (run-Registers o.machine o.network o.sessions o.is_print cmd cwd is_daemon wait_ms opt
              st.client st.world)
            (valid', rw same run)

      pub run_tool-Answers :
          (cmd cwd : Bytes) (is_daemon : Bool) (wait_ms : ℤ) (opt : CommandOptions)
          → Answers (serve_run o cmd cwd is_daemon wait_ms opt st)
      unfolding serve_run
      run_tool-Answers cmd cwd is_daemon wait_ms opt =
          run_with-Answers _ _ cmd cwd is_daemon wait_ms opt

      pub info_tool-Answers : Answers (serve_session_info o st)
      unfolding serve_session_info
      info_tool-Answers = run_with-Answers _ _ _ _ _ _ _

      search-Answers :
          (error_name completed no_match cmd : Bytes)
          → Answers (search_with o error_name completed no_match cmd st)
      unfolding search_with
      search-Answers error_name completed no_match cmd = run_with-Answers _ _ _ _ _ _ _

      needed-Answers :
          (name v : Bytes) (go_on : Bytes → Served W V)
          → ((v : Bytes) → Answers (go_on v))
          → Answers (needed o name v go_on st)
      unfolding needed
      needed-Answers name v go_on more = elim (Bool-cases (eqb v [])) [
        | inl blank ↦ rw blank (answered _ _ sound)
        | inr given ↦ rw given (more v)
      ]

      pub grep_tool-Answers : (req : Request) → Answers (serve_grep o req st)
      unfolding serve_grep
      grep_tool-Answers req =
          needed-Answers _ _ _ (λ path. needed-Answers _ _ _ (λ query. search-Answers _ _ _ _))

      pub find_tool-Answers : (req : Request) → Answers (serve_find o req st)
      unfolding serve_find
      find_tool-Answers req =
          needed-Answers _ _ _ (λ dir. needed-Answers _ _ _ (λ pattern. search-Answers _ _ _ _))
