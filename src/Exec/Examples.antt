-- ===== src/Exec/Examples.antt =====
-- Runs of the code of internal/sshclient/exec.go.
use mcp_ssh_workspace.Common.{
  ℕ, ◌≡◌, refl, Bool, true, some, [], ◌∷◌, ◌++◌, Bytes, codes, eqb, All, arith,
}
use mcp_ssh_workspace.Common.Int.{pos}
use mcp_ssh_workspace.Common.Result.{ok}
use mcp_ssh_workspace.Text.Search.{has_prefix, last_index}
use mcp_ssh_workspace.Text.Trim.{strip_one, strip, trim_space}
use mcp_ssh_workspace.Text.Base64.{decode}
use mcp_ssh_workspace.Text.Base64.RoundTrip.{IsBase64}
use mcp_ssh_workspace.Text.Decimal.{format, format_int64}
use mcp_ssh_workspace.Common.Dict.{lookup, insert, erase}
use mcp_ssh_workspace.Tasks.{Task, new_task_manager, register, get}
use mcp_ssh_workspace.Exec.Wrap.{raw_script, wrap_command}
use mcp_ssh_workspace.Exec.Wrap.Safety.{wrap-decode}
use mcp_ssh_workspace.Exec.Markers.{mcp_exit, mcp_cwd, parse_command_markers}
use mcp_ssh_workspace.Exec.Markers.RoundTrip.{report, parse-report}
use mcp_ssh_workspace.Exec.Finish.{
  exit_error, store_completed, close_done, store_result, close_session, apply_step,
  background_steps,
}
use mcp_ssh_workspace.Exec.Goroutines.{
  Pool, new_pool, start_task, set_phase, ending, Steps, done, more, started, ended,
}
use mcp_ssh_workspace.Exec.Goroutines.Ending.{due_step-runs, Completes, ending-Completes}
use mcp_ssh_workspace.Exec.Goroutines.Growth.{Grows, Steps-Grows}

abbrev server_dir : Bytes
server_dir = codes "/srv"

parse-report_example :
    parse_command_markers (codes "two\nlines" ++ report 3 server_dir) mcp_exit mcp_cwd
    ≡ (codes "two\nlines", server_dir, pos 3)
unfolding last_index has_prefix trim_space strip strip_one
parse-report_example = parse-report (codes "two\nlines") 3 server_dir refl (omega arith) refl

-- ASCII counts as printable.
abbrev printable : ℕ → Bool
printable c = true

wrap-decode_example :
    (word : Bytes) × ((wrap_command printable (codes "ls") server_dir (codes "pw")).0
      ≡ codes "sh -c 'echo " ++ (word ++ codes " | (base64 -d 2>/dev/null || base64 -D) | sh'"))
    × All IsBase64 word
    × (decode word ≡ some (raw_script printable (codes "ls") server_dir (codes "pw")))
wrap-decode_example =
    wrap-decode printable (codes "ls") server_dir (codes "pw") (ground arith) (ground arith)
      (ground arith)

-- One daemon, whose session has ended with status 3.
abbrev one_daemon : Pool
one_daemon = start_task (codes "sleep 9") (codes "/") 5 3 4 true new_pool

abbrev one_ended : Pool
one_ended =
    set_phase (codes "task-1") (ending (background_steps (some (exit_error (pos 3))))) one_daemon

run_daemon : Steps new_pool one_daemon
run_daemon =
    more new_pool new_pool one_daemon (done new_pool)
      (started (codes "sleep 9") (codes "/") 5 3 4 true new_pool (omega arith))

run_ended : Steps new_pool one_ended
unfolding start_task register lookup insert erase eqb format_int64 format
run_ended =
    more new_pool one_daemon one_ended run_daemon
      (ended (codes "task-1") (some (exit_error (pos 3))) one_daemon refl)

due_step-runs_example :
    (t : Task) × (t' : Task) × (get one_ended.tasks (codes "task-1") ≡ some t)
    × (apply_step store_completed t ≡ ok t')
unfolding start_task register lookup insert erase eqb format_int64 format
due_step-runs_example =
    due_step-runs one_ended (codes "task-1") store_completed
      (close_done ∷ store_result (some (exit_error (pos 3))) ∷ close_session ∷ []) run_ended refl

ending-Completes_example : Completes one_ended (codes "task-1")
unfolding start_task register lookup insert erase eqb format_int64 format
ending-Completes_example =
    ending-Completes one_ended (codes "task-1") (background_steps (some (exit_error (pos 3))))
      run_ended refl

abbrev first_task : Task
first_task = (register (codes "sleep 9") (codes "/") 5 3 4 [] [] new_task_manager).0

Steps-Grows_example :
    (u : Task) × (get one_ended.tasks (codes "task-1") ≡ some u) × Grows first_task u
unfolding start_task register get lookup insert erase eqb format_int64 format
Steps-Grows_example =
    Steps-Grows one_daemon one_ended (codes "task-1") first_task run_daemon
      (more one_daemon one_daemon one_ended (done one_daemon)
        (ended (codes "task-1") (some (exit_error (pos 3))) one_daemon refl))
      refl
