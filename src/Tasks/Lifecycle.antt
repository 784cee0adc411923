-- ===== src/Tasks/Lifecycle.antt =====
-- `Kill` on every branch.
use mcp_ssh_workspace.Common.{
  ℕ, ◌≡◌, ◌⊎◌, inl, inr, true, false, none, some, [], ◌∷◌, Bytes, Option-cases, Bool-cases,
}
use mcp_ssh_workspace.Common.Result.{ok, err}
use mcp_ssh_workspace.Tasks.{
  Task, TaskManager, task_not_found, already_finished, signal_kill, close_session, get, kill_task,
  kill,
}

-- The session is told to die exactly if the task is known and has not completed, and then it gets
-- the signal before it is closed. An unknown and a finished task are errors, each its own.
pub kill_cases :
    (tm : TaskManager) (id : Bytes)
    → ((get tm id ≡ none) × (kill tm id ≡ err (task_not_found id)))
      ⊎ ((t : Task) × (get tm id ≡ some t)
          × (t.completed ≡ true)
          × (kill tm id ≡ err (already_finished id)))
      ⊎ ((t : Task) × (s : ℕ) × (get tm id ≡ some t)
          × (t.completed ≡ false)
          × (t.session ≡ some s)
          × (kill tm id ≡ ok (signal_kill s ∷ close_session s ∷ [])))
      ⊎ ((t : Task) × (get tm id ≡ some t)
          × (t.completed ≡ false)
          × (t.session ≡ none)
          × (kill tm id ≡ ok []))
kill_cases tm id = elim (Option-cases (get tm id)) [
  | inl e ↦ inl (e, unfold kill in rw e)
  | inr (t, e) ↦ elim (Bool-cases t.completed) [
    | inl c ↦ inr (inl (t, e, c, unfold kill in rw (e, kill_task, c)))
    | inr c ↦ elim (Option-cases t.session) [
      | inl n ↦ inr (inr (inr (t, e, c, n, unfold kill in rw (e, kill_task, c, n))))
      | inr (s, n) ↦ inr (inr (inl (t, s, e, c, n, unfold kill in rw (e, kill_task, c, n))))
    ]
  ]
]
