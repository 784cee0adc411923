-- ===== src/Tasks/Examples.antt =====
-- Runs of the code of internal/sshclient/tasks.go.
use mcp_ssh_workspace.Common.{
  ◌≡◌, refl, none, some, [], ◌∷◌, Bytes, codes, eqb, if◌then◌else◌, arith,
}
use mcp_ssh_workspace.Common.Result.{ok}
use mcp_ssh_workspace.Text.Decimal.{format, format_int64}
use mcp_ssh_workspace.Text.Search.{split_on, join_on}
use mcp_ssh_workspace.Text.Trim.{trim_newlines}
use mcp_ssh_workspace.Common.Dict.{lookup, insert}
use mcp_ssh_workspace.Tasks.Registry.{new-IsValid, register_fresh}
use mcp_ssh_workspace.Tasks.{
  TaskManager, new_task_manager, register, get, kill, signal_kill, close_session, tail_lines,
}

abbrev two_tasks : TaskManager
two_tasks =
    (register (codes "make") (codes "/srv") 7 1 2 [] []
      (register (codes "ls") (codes "/") 5 3 4 [] [] new_task_manager).1).1

kill_runs : kill two_tasks (codes "task-2") ≡ ok (signal_kill 1 ∷ close_session 1 ∷ [])
unfolding kill get register lookup insert format_int64 format eqb
kill_runs = refl

tail_lines_runs : tail_lines (codes "a\nb\nc\n\n") 2 ≡ codes "b\nc\n"
unfolding tail_lines trim_newlines split_on join_on eqb
tail_lines_runs = refl

register_fresh_example :
    let (t, tm') = register (codes "ls") (codes "/") 5 3 4 [] [] new_task_manager in
    (get new_task_manager t.id ≡ none)
    × (get tm' t.id ≡ some t)
    × ((k : Bytes) → get tm' k ≡ (if eqb t.id k then some t else get new_task_manager k))
register_fresh_example =
    register_fresh new_task_manager new-IsValid (omega arith) (codes "ls") (codes "/") 5 3 4 [] []
