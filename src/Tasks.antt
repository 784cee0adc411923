-- ===== src/Tasks.antt =====
-- internal/sshclient/tasks.go: the tasks of the commands that were started, and their output.
pub mod Registry
pub mod Updating
pub mod Tail
pub mod Lifecycle
pub mod Examples
use mcp_ssh_workspace.Common.{
  ℕ, zero, suc, ◌+◌, ◌-◌, ◌%◌, ◌^◌, ◌≡◌, Bool, true, false, Option, none, some, List, [], ◌∷◌, ◌++◌,
  Bytes, codes, eqb, leb, if◌then◌else◌, length, drop,
}
use mcp_ssh_workspace.Common.Int.{ℤ, pos, negsuc, is_nonpos, pos_part}
use mcp_ssh_workspace.Common.Result.{Result, ok, err}
use mcp_ssh_workspace.Common.Dict.{Dict, lookup, insert, values}
use mcp_ssh_workspace.Text.Decimal.{format_int64}
use mcp_ssh_workspace.Text.Search.{newline, split_on, join_on}
use mcp_ssh_workspace.Text.Trim.{trim_newlines}

-- `syncBuffer`: its lock makes each call one step.
abbrev pub SyncBuffer : Type 0
SyncBuffer = Bytes

abbrev pub new_sync_buffer : SyncBuffer
new_sync_buffer = []

-- Write(p) returns `len(p)`, and no error.
unfoldable pub write_buffer : SyncBuffer → Bytes → ℕ × SyncBuffer
write_buffer buf p = (length p, buf ++ p)

unfoldable pub buffer_string : SyncBuffer → Bytes
buffer_string buf = buf

unfoldable pub buffer_len : SyncBuffer → ℕ
buffer_len buf = length buf

-- A session and its standard input are handles of the SSH library; `none` is `nil`. A time is the
-- number that the clock shows.
pub record Task : Type 0 where
  pub id : Bytes
  pub command : Bytes
  pub cwd : Bytes
  pub start_time : ℕ
  pub session : Option ℕ
  pub stdin : Option ℕ
  pub stdout : SyncBuffer
  pub stderr : SyncBuffer
  pub done_closed : Bool
  pub exit_code : ℤ
  pub completed : Bool
  pub error_msg : Bytes

-- The map holds pointers: what changes a task is seen by all who hold it. A task stays in the map
-- for good, so its identifier stands for the pointer.
pub record TaskManager : Type 0 where
  pub tasks : Dict Task
  pub next_id : ℕ

abbrev pub new_task_manager : TaskManager
new_task_manager = record { tasks = []; next_id = 0 }

abbrev pub task_id : ℕ → Bytes
task_id n = codes "task-" ++ format_int64 n

-- `nextID.Add(1)` on an `int64`
abbrev pub next : ℕ → ℕ
next n = (n + 1) % 2 ^ 64

unfoldable pub register :
    Bytes → Bytes → ℕ → ℕ → ℕ → SyncBuffer → SyncBuffer → TaskManager → Task × TaskManager
register cmd cwd now sess stdin stdout stderr tm =
    let id_num = next tm.next_id in
    let t : Task = record {
      id = task_id id_num;
      command = cmd;
      cwd = cwd;
      start_time = now;
      session = some sess;
      stdin = some stdin;
      stdout = stdout;
      stderr = stderr;
      done_closed = false;
      exit_code = negsuc 0;
      completed = false;
      error_msg = [];
    } in
    (t, record { tasks = insert (task_id id_num) t tm.tasks; next_id = id_num })

unfoldable pub get : TaskManager → Bytes → Option Task
get tm id = lookup id tm.tasks

-- Go leaves the order open.
unfoldable pub list : TaskManager → List Task
list tm = values tm.tasks

pub data KillError : Type 0 where
  task_not_found already_finished : Bytes → KillError

-- What the SSH library is asked to do; the program ignores what it answers.
pub data SessionCall : Type 0 where
  signal_kill close_session : ℕ → SessionCall

abbrev pub end_session : Option ℕ → List SessionCall
end_session none = []
end_session (some sess) = signal_kill sess ∷ close_session sess ∷ []

unfoldable pub kill_task : Bytes → Option Task → Result KillError (List SessionCall)
kill_task id none = err (task_not_found id)
kill_task id (some t) =
    if t.completed then err (already_finished id) else ok (end_session t.session)

unfoldable pub kill : TaskManager → Bytes → Result KillError (List SessionCall)
unfolding kill_task
kill tm id = kill_task id (get tm id)

unfoldable pub tail_lines : Bytes → ℕ → Bytes
tail_lines s n =
    let parts = split_on newline (trim_newlines s) in
    if eqb s []
    then []
    else if leb (length parts) n
    then s
    else join_on newline (drop (length parts - n) parts) ++ newline ∷ []

abbrev tail_count : ℤ → ℕ
tail_count lines = if is_nonpos lines then 50 else pos_part lines

unfoldable pub tail : Task → ℤ → Bytes × Bytes
tail t lines =
    let n = tail_count lines in
    (tail_lines (buffer_string t.stdout) n, tail_lines (buffer_string t.stderr) n)

-- The task behind the pointer is changed.
unfoldable pub updated : Bytes → (Task → Task) → TaskManager → Option Task → TaskManager
updated id f tm none = tm
updated id f tm (some t) = record tm { tasks = insert id (f t) tm.tasks }

unfoldable pub update : Bytes → (Task → Task) → TaskManager → TaskManager
unfolding updated
update id f tm = updated id f tm (lookup id tm.tasks)
