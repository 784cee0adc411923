-- ===== src/Tools/Task.antt =====
-- The tool `remote_manage_task` of internal/tools/register.go.
pub mod Effects
use mcp_ssh_workspace.Common.{
  ℕ, ◌≡◌, Bool, true, false, Option, none, some, List, [], ◌∷◌, ◌++◌, Bytes, codes, map, eqb,
  if◌then◌else◌,
}
use mcp_ssh_workspace.Common.Int.{ℤ, pos}
use mcp_ssh_workspace.Common.Result.{Result, ok, err, panic}
use mcp_ssh_workspace.Text.Search.{newline}
use mcp_ssh_workspace.Tasks.{
  Task, TaskManager, KillError, task_not_found, already_finished, SessionCall, buffer_string, get,
  list, kill, tail,
}
use mcp_ssh_workspace.Tools.{
  Request, get_param_string, get_param_int, ToolResult, text, json, error,
}

pub record TaskSummary : Type 0 where
  pub id : Bytes
  pub command : Bytes
  pub cwd : Bytes
  pub start_time : ℕ
  pub completed : Bool
  pub exit_code : ℤ

-- The values that are turned into JSON.
pub data TaskReply : Type 0 where
  summaries : List TaskSummary → TaskReply
  -- id command cwd status start_time exit_code stdout stderr
  task_status : Bytes → Bytes → Bytes → Bytes → ℕ → ℤ → Bytes → Bytes → TaskReply
  -- id command cwd status lines stdout_tail stderr_tail
  task_tail : Bytes → Bytes → Bytes → Bytes → ℤ → Bytes → Bytes → TaskReply

-- What the SSH library is asked to do.
pub data TaskEffect : Type 0 where
  on_session : SessionCall → TaskEffect
  write_stdin : ℕ → Bytes → TaskEffect

abbrev Reply : Type 0
Reply = ToolResult TaskReply × List TaskEffect

abbrev pub summary : Task → TaskSummary
summary t = record {
  id = t.id;
  command = t.command;
  cwd = t.cwd;
  start_time = t.start_time;
  completed = t.completed;
  exit_code = t.exit_code;
}

abbrev pub status_word : Task → Bytes
status_word t = if t.completed then codes "DONE" else codes "RUNNING"

abbrev pub no_such_task : Bytes → Reply
no_such_task id = (error (codes "Task " ++ (id ++ codes " not found")), [])

unfoldable pub status_action : Bytes → Option Task → Reply
status_action id none = no_such_task id
status_action id (some t) = (
  json (
      task_status t.id t.command t.cwd (status_word t) t.start_time t.exit_code
        (buffer_string t.stdout) (buffer_string t.stderr)),
  [],
)

unfoldable pub tail_action : Bytes → ℤ → Option Task → Reply
tail_action id lines none = no_such_task id
tail_action id lines (some t) =
    let (stdout_tail, stderr_tail) = tail t lines in
    (json (task_tail t.id t.command t.cwd (status_word t) lines stdout_tail stderr_tail), [])

abbrev kill_message : KillError → Bytes
kill_message (task_not_found id) = codes "task " ++ (id ++ codes " not found")
kill_message (already_finished id) = codes "task " ++ (id ++ codes " already finished")

unfoldable pub kill_action : Bytes → Result KillError (List SessionCall) → Reply
kill_action id (ok calls) =
    (text (codes "Task " ++ (id ++ codes " successfully terminated")), map on_session calls)
kill_action id (err e) = (error (codes "Failed to kill task: " ++ kill_message e), [])
kill_action id panic = (error [], [])

-- `why` is the error of the write, if it fails.
unfoldable pub write_input : Bytes → Bytes → (ℕ → Bytes → Option Bytes) → Option ℕ → Reply
write_input id input answer none = (error (codes "Task stdin is not writable"), [])
write_input id input answer (some stdin) =
    let line = input ++ newline ∷ [] in
    (
      elim (answer stdin line) [
        | none ↦ text (codes "Sent input to task " ++ id)
        | some why ↦ error (codes "Failed to send input: " ++ why)
      ],
      write_stdin stdin line ∷ [],
    )

unfoldable pub send_action : Bytes → Bytes → (ℕ → Bytes → Option Bytes) → Option Task → Reply
unfolding write_input
send_action id input answer none = no_such_task id
send_action id input answer (some t) =
    if t.completed
    then (error (codes "Task " ++ (id ++ codes " is already completed")), [])
    else write_input id input answer t.stdin

abbrev pub need_id : Bytes → Bytes → Reply → Reply
need_id action id reply =
    if eqb id []
    then (error (codes "taskId is required for '" ++ (action ++ codes "' action")), [])
    else reply

-- `answer` is the error of a write to a standard input, if it fails.
unfoldable pub manage_task : (ℕ → Bytes → Option Bytes) → Request → TaskManager → Reply
unfolding status_action tail_action kill_action send_action
manage_task answer req tm =
    let action = get_param_string req (codes "action" ∷ codes "Action" ∷ []) in
    let id =
      get_param_string req (codes "taskId" ∷ codes "TaskId" ∷ codes "task_id" ∷ codes "id" ∷ []) in
    let input = get_param_string req (codes "input" ∷ codes "Input" ∷ []) in
    let lines = get_param_int req (pos 50) (codes "lines" ∷ codes "Lines" ∷ codes "n" ∷ []) in
    if eqb action []
    then (error (codes "action is required"), [])
    else if eqb action (codes "list")
    then (json (summaries (map summary (list tm))), [])
    else if eqb action (codes "status")
    then need_id action id (status_action id (get tm id))
    else if eqb action (codes "tail")
    then need_id action id (tail_action id lines (get tm id))
    else if eqb action (codes "kill")
    then need_id action id (kill_action id (kill tm id))
    else if eqb action (codes "send_input")
    then need_id action id (send_action id input answer (get tm id))
    else (error (codes "Unknown action: " ++ action), [])
