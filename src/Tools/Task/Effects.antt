-- ===== src/Tools/Task/Effects.antt =====
-- What `remote_manage_task` may do to a task.
use mcp_ssh_workspace.Common.{
  ℕ, ◌≡◌, ◌⊎◌, inl, inr, refl, false, Bool-cases, Option, none, some, List, [], ◌∷◌, ◌++◌, Bytes,
  codes, map, eqb, eqb_iff,
}
use mcp_ssh_workspace.Common.Int.{ℤ, pos}
use mcp_ssh_workspace.Text.Search.{newline}
use mcp_ssh_workspace.Tasks.{Task, TaskManager, end_session, kill_task, get, kill}
use mcp_ssh_workspace.Tools.{Request, get_param_string, get_param_int, ToolResult}
use mcp_ssh_workspace.Tools.Task.{
  TaskReply, TaskEffect, on_session, write_stdin, status_action, tail_action, kill_action,
  write_input, send_action, manage_task, need_id,
}

abbrev action_of : Request → Bytes
action_of req = get_param_string req (codes "action" ∷ codes "Action" ∷ [])

abbrev id_of : Request → Bytes
id_of req =
    get_param_string req (codes "taskId" ∷ codes "TaskId" ∷ codes "task_id" ∷ codes "id" ∷ [])

abbrev input_of : Request → Bytes
input_of req = get_param_string req (codes "input" ∷ codes "Input" ∷ [])

abbrev lines_of : Request → ℤ
lines_of req = get_param_int req (pos 50) (codes "lines" ∷ codes "Lines" ∷ codes "n" ∷ [])

-- What an effect has to come from.
abbrev pub Allowed : Request → TaskManager → List TaskEffect → Type 0
Allowed req tm effects =
    (effects ≡ [])
    ⊎ ((t : Task) × (get tm (id_of req) ≡ some t)
        × (t.completed ≡ false)
        × (((action_of req ≡ codes "kill") × (effects ≡ map on_session (end_session t.session)))
            ⊎ ((action_of req ≡ codes "send_input")
                × (stdin : ℕ) × (t.stdin ≡ some stdin)
                × (effects ≡ write_stdin stdin (input_of req ++ newline ∷ []) ∷ []))))

status_quiet : (id : Bytes) (found : Option Task) → (status_action id found).1 ≡ []
unfolding status_action
status_quiet id none = refl
status_quiet id (some t) = refl

tail_quiet : (id : Bytes) (lines : ℤ) (found : Option Task) → (tail_action id lines found).1 ≡ []
unfolding tail_action
tail_quiet id lines none = refl
tail_quiet id lines (some t) = refl

kill_effect :
    (id : Bytes) (found : Option Task)
    → ((kill_action id (kill_task id found)).1 ≡ [])
      ⊎ ((t : Task) × (found ≡ some t)
          × (t.completed ≡ false)
          × ((kill_action id (kill_task id found)).1 ≡ map on_session (end_session t.session)))
unfolding kill_action kill_task
kill_effect id none = inl refl
kill_effect id (some t) = elim (Bool-cases t.completed) [
  | inl e ↦ inl (rw e refl)
  | inr e ↦ inr (t, refl, e, rw e refl)
]

write_effect :
    (id input : Bytes) (answer : ℕ → Bytes → Option Bytes) (stdin : Option ℕ)
    → ((write_input id input answer stdin).1 ≡ [])
      ⊎ ((h : ℕ) × (stdin ≡ some h)
          × ((write_input id input answer stdin).1 ≡ write_stdin h (input ++ newline ∷ []) ∷ []))
unfolding write_input
write_effect id input answer none = inl refl
write_effect id input answer (some h) = inr (h, refl, refl)

send_effect :
    (id input : Bytes) (answer : ℕ → Bytes → Option Bytes) (found : Option Task)
    → ((send_action id input answer found).1 ≡ [])
      ⊎ ((t : Task) × (found ≡ some t)
          × (t.completed ≡ false)
          × (h : ℕ) × (t.stdin ≡ some h)
          × ((send_action id input answer found).1 ≡ write_stdin h (input ++ newline ∷ []) ∷ []))
unfolding send_action
send_effect id input answer none = inl refl
send_effect id input answer (some t) = elim (Bool-cases t.completed) [
  | inl e ↦ inl (rw e refl)
  | inr e ↦ elim (write_effect id input answer t.stdin) [
    | inl quiet ↦ inl (rw e quiet)
    | inr (h, there, does) ↦ inr (t, refl, e, h, there, rw e does)
  ]
]

-- Without an identifier there is no effect.
need_id_lem :
    (P : List TaskEffect → Type 0) (action id : Bytes)
    (reply : ToolResult TaskReply × List TaskEffect)
    → P []
    → P reply.1
    → P (need_id action id reply).1
need_id_lem P action id reply quiet does = elim (Bool-cases (eqb id [])) [
  | inl e ↦ rw e quiet
  | inr e ↦ rw e does
]

module _ (answer : ℕ → Bytes → Option Bytes) (req : Request) (tm : TaskManager) where
  abbrev needed : Bytes → ToolResult TaskReply × List TaskEffect → List TaskEffect
  needed action reply = (need_id action (id_of req) reply).1

  quiet-Allowed :
      (action : Bytes) (reply : ToolResult TaskReply × List TaskEffect)
      → reply.1 ≡ []
      → Allowed req tm (needed action reply)
  quiet-Allowed action reply quiet =
      need_id_lem (Allowed req tm) action (id_of req) reply (inl refl) (inl quiet)

  kill-Allowed :
      (action : Bytes)
      → action_of req ≡ codes "kill"
      → Allowed req tm (needed action (kill_action (id_of req) (kill tm (id_of req))))
  unfolding kill
  kill-Allowed action is_kill =
      need_id_lem (Allowed req tm) action (id_of req) _ (inl refl)
        (elim (kill_effect (id_of req) (get tm (id_of req))) [
          | inl quiet ↦ inl quiet
          | inr (t, found, live, does) ↦ inr (t, found, live, inl (is_kill, does))
        ])

  send-Allowed :
      (action : Bytes)
      → action_of req ≡ codes "send_input"
      → Allowed req tm
          (needed action (send_action (id_of req) (input_of req) answer (get tm (id_of req))))
  send-Allowed action is_send =
      need_id_lem (Allowed req tm) action (id_of req) _ (inl refl)
        (elim (send_effect (id_of req) (input_of req) answer (get tm (id_of req))) [
          | inl quiet ↦ inl quiet
          | inr (t, found, live, h, there, does) ↦
              inr (t, found, live, inr (is_send, h, there, does))
        ])

  -- The tool touches the remote side only to kill a task or to write to one, and only a task that is
  -- registered and has not completed. `kill` sends the signal and closes the session, and
  -- `send_input` writes the input with a newline behind it.
  pub manage_task_effects : Allowed req tm (manage_task answer req tm).1
  unfolding manage_task
  manage_task_effects = elim (Bool-cases (eqb (action_of req) [])) [
    | inl e ↦ rw e (inl refl)
    | inr a ↦ elim (Bool-cases (eqb (action_of req) (codes "list"))) [
      | inl e ↦ rw (a, e) (inl refl)
      | inr b ↦ elim (Bool-cases (eqb (action_of req) (codes "status"))) [
        | inl e ↦
            rw (a, b, e)
              (quiet-Allowed (action_of req) (status_action (id_of req) (get tm (id_of req)))
                (status_quiet (id_of req) (get tm (id_of req))))
        | inr c ↦ elim (Bool-cases (eqb (action_of req) (codes "tail"))) [
          | inl e ↦
              rw (a, b, c, e)
                (quiet-Allowed (action_of req)
                  (tail_action (id_of req) (lines_of req) (get tm (id_of req)))
                  (tail_quiet (id_of req) (lines_of req) (get tm (id_of req))))
          | inr d ↦ elim (Bool-cases (eqb (action_of req) (codes "kill"))) [
            | inl e ↦
                rw (a, b, c, d, e)
                  (kill-Allowed (action_of req) ((eqb_iff (action_of req) (codes "kill")).0 e))
            | inr f ↦ elim (Bool-cases (eqb (action_of req) (codes "send_input"))) [
              | inl e ↦
                  rw (a, b, c, d, f, e)
                    (send-Allowed (action_of req)
                      ((eqb_iff (action_of req) (codes "send_input")).0 e))
              | inr g ↦ rw (a, b, c, d, f, g) (inl refl)
            ]
          ]
        ]
      ]
    ]
  ]
