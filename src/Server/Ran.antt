-- ===== src/Server/Ran.antt =====
-- A request to run a command that ends in time, from its parameters to the result.
use mcp_ssh_workspace.Common.{
  ℕ, ◌^◌, ◌<◌, ◌≡◌, ◌≢◌, refl, Bool, false, Option, none, some, [], ◌∷◌, ◌++◌, Bytes, codes,
}
use mcp_ssh_workspace.Common.Int.{ℤ}
use mcp_ssh_workspace.Common.Result.{Result, ok}
use mcp_ssh_workspace.Text.Search.{newline, last_index}
use mcp_ssh_workspace.Text.Trim.{trim_space}
use mcp_ssh_workspace.Exec.Finish.{WaitError}
use mcp_ssh_workspace.Exec.Wrap.{wrap_command}
use mcp_ssh_workspace.Exec.Markers.RoundTrip.{report, exit_mark}
use mcp_ssh_workspace.Client.{Client, connected, ensure_connected}
use mcp_ssh_workspace.Client.Run as Run
use mcp_ssh_workspace.Client.Run.{
  ended, ExecResult, CommandOptions, RunError, active_cwd, sudo_command, keep_sudo,
}
use mcp_ssh_workspace.Client.Run.Reported.{reported, limit, run_command-reported}
use mcp_ssh_workspace.Tools.{Request, json}
use mcp_ssh_workspace.Tools.Calls.{run_command, remote_run_command, tool_call}
use mcp_ssh_workspace.Server.{Outside, Moment, State, exec_result, with_connection}
use mcp_ssh_workspace.Server.Commands.{run_reply, run_with, serve_run}
use mcp_ssh_workspace.Server.Tools.{calls, after_params, execute, serve}

module _ {W V : Type 0} (o : Outside W V) where
  run_reply-result :
      (failed : Bytes) (x : Result RunError ExecResult × Client × W) (r : ExecResult) (w : W)
      (st : State W V)
      → x.0 ≡ ok r
      → x.2 ≡ w
      → run_reply false failed (λ res c. json (exec_result res)) x st
        ≡ some (json (exec_result r), [], with_connection x.1 w st)
  unfolding run_reply
  run_reply-result failed (a, c, v) r w st done there = rw (done, there) refl

  abbrev options : Bytes → Bool → CommandOptions
  options pw sudo = record { sudo_password = pw; run_as_sudo = sudo }

  -- The tool `remote_run_command`, not asked for the background: the client connects, and a session is
  -- opened and started with the wrapped script; it ends in time, and the script printed its report
  -- behind the output, with a code below 2^63 and a directory that is not empty, holds no exit marker
  -- and has no blanks at its ends. Then the tool replies the output alone, with the exit code and the
  -- directory; the client is in that directory from then on, and the session is closed.
  pub run_tool-reported :
      (e : Option WaitError) (out stderr : Bytes) (code : ℕ) (dir : Bytes)
      → last_index (dir ++ newline ∷ []) exit_mark ≡ none
      → code < 2 ^ 63
      → trim_space dir ≡ dir
      → dir ≢ []
      → (m : Moment) (req : Request) (st : State W V) (cmd cwd : Bytes) (wait_ms : ℤ) (pw : Bytes)
        (sudo : Bool) (c1 c2 : Client) (w1 w2 w3 w4 w5 w6 : W) (cli sess stdin : ℕ)
      → tool_call req remote_run_command ≡ ok (run_command cmd cwd false wait_ms pw sudo)
      → ensure_connected o.machine o.network st.client st.world ≡ (none, c1, w1)
      → ensure_connected o.machine o.network (keep_sudo (options pw sudo) c1) w1 ≡ (none, c2, w2)
      → c2.ssh_client ≡ some cli
      → o.sessions.new_session cli w2 ≡ (connected sess, w3)
      → o.sessions.stdin_pipe sess w3 ≡ (connected stdin, w4)
      → o.sessions.start sess
          (wrap_command o.is_print
            (sudo_command (options pw sudo) cmd)
            (active_cwd cwd c1)
            (keep_sudo (options pw sudo) c1).sudo_password).0
          w4
        ≡ (none, w5)
      → o.sessions.race sess (limit wait_ms) w5 ≡ (ended e (out ++ report code dir) stderr, w6)
      → (c' : Client) × (serve o m (calls remote_run_command) req st
          ≡ some (
            json (exec_result (reported e out stderr code dir)),
            [],
            with_connection c' (o.sessions.close_session sess w6) st,
          ))
        × (c'.current_cwd ≡ dir)
  unfolding serve after_params execute serve_run run_with
  run_tool-reported e out stderr code dir no_mark fits trimmed some_dir m req st cmd cwd wait_ms pw
        sudo c1 c2 w1 w2 w3 w4 w5 w6 cli sess stdin asks up again client opens pipe starts race =
      let opt = options pw sudo in
      let x =
        Run.run_command o.machine o.network o.sessions o.is_print cmd cwd false wait_ms opt
          st.client st.world in
      let (result, there, closed) =
        run_command-reported e out stderr code dir no_mark fits trimmed some_dir o.machine o.network
          o.sessions o.is_print cmd cwd wait_ms opt st.client c1 c2 st.world w1 w2 w3 w4 w5 w6 cli
          sess stdin up again client opens pipe starts race in
      (
        x.1,
        rw asks (
            run_reply-result (codes "Execution error: ") x (reported e out stderr code dir)
              (o.sessions.close_session sess w6) st result closed),
        there,
      )
