-- ===== src/Server/Serving.antt =====
-- cmd/mcp-ssh-workspace/main.go: the client is made from the settings, and requests are served until
-- the input ends. Between two requests the goroutines of the commands go on.
use mcp_ssh_workspace.Common.{
  ◌≡◌, ◌≢◌, ◌⊎◌, refl, sym, ap, ◌∙◌, Bool-cases, Option, none, some, List, [], Bytes, eqb, inl, inr,
}
use mathlib.Core.Path.{subst}
use mcp_ssh_workspace.Common.Result.{ok, panic, panic-ne-ok, ok-injective}
use mcp_ssh_workspace.Config.{Config}
use mcp_ssh_workspace.Tasks.{Task, TaskManager, get, update}
use mcp_ssh_workspace.Tasks.Registry.{new-IsValid, update-IsValid}
use mcp_ssh_workspace.Tunnels.Runs.{created}
use mcp_ssh_workspace.Exec.Finish.{
  FinishStep, store_completed, close_done, close_session, store_result, WaitError, exit_error,
  other_error, set_result, apply_step,
}
use mcp_ssh_workspace.Exec.Goroutines.{more_output}
use mcp_ssh_workspace.Client.{initial_client, new_client, connect}
use mcp_ssh_workspace.Client.Connecting.{connect-SameManagers}
use mcp_ssh_workspace.Tools.{Request, ToolResult}
use mcp_ssh_workspace.Tools.Calls.{Tool, ClientCall, tool_call}
use mcp_ssh_workspace.Tools.Task.{TaskEffect}
use mcp_ssh_workspace.Server.{Outside, Moment, State, Value, Served}
use mcp_ssh_workspace.Server.Tools.{ServerTool, calls, serve}
use mcp_ssh_workspace.Server.Valid.{Sound, Sound-same, Room, Answers}
use mcp_ssh_workspace.Server.Valid.AllTools.{EditPanics, serve-Answers}

module _ {W V : Type 0} (o : Outside W V) where
  unfoldable pub start_server : Config → W → V → State W V
  start_server cfg w v =
      let (c, w') = new_client o.machine o.network cfg w in
      record { client = c; world = w'; local_disk = v }

  abbrev pub with_tasks : TaskManager → State W V → State W V
  with_tasks tasks st = record st { client = record st.client { task_mgr = tasks } }

  -- The states that the program reaches if it serves one request after another, while the counters of
  -- the managers are far from their end and `net.Listen` does not panic. Between two requests, output
  -- arrives and the goroutines of commands go on. The MCP library may serve requests at the same time,
  -- which is not among these runs.
  pub data Serving : State W V → Type 0 where
    started : (cfg : Config) (w : W) (v : V) → Serving (start_server cfg w v)
    served :
        (m : Moment) (tool : ServerTool) (req : Request) (st st' : State W V)
        (reply : ToolResult Value) (effects : List TaskEffect)
        → Serving st
        → Room st.client
        → ((address : Bytes) → m.listen address ≢ panic)
        → serve o m tool req st ≡ some (reply, effects, st')
        → Serving st'
    -- More output of a session arrives.
    wrote :
        (id out errors : Bytes) (st : State W V)
        → Serving st
        → Serving (with_tasks (update id (more_output out errors) st.client.task_mgr) st)
    -- A goroutine takes a step of the end of a command.
    finishing :
        (id : Bytes) (s : FinishStep) (t t' : Task) (st : State W V)
        → Serving st
        → get st.client.task_mgr id ≡ some t
        → apply_step s t ≡ ok t'
        → Serving (with_tasks (update id (λ _. t') st.client.task_mgr) st)

  start-Sound : (cfg : Config) (w : W) (v : V) → Sound (start_server cfg w v).client
  unfolding start_server new_client
  start-Sound cfg w v = elim (Bool-cases (eqb cfg.host [])) [
    | inl blank ↦ rw blank (new-IsValid, created)
    | inr given ↦ rw given (
        let c = initial_client o.machine o.network cfg in
        let (tasks, tunnels) = connect-SameManagers o.machine o.network c w in
        Sound-same c (connect o.machine o.network c w).1 tasks tunnels (new-IsValid, created))
  ]

result_id : (e : Option WaitError) (t : Task) → (set_result e t).id ≡ t.id
result_id none t = refl
result_id (some (exit_error status)) t = refl
result_id (some (other_error msg)) t = refl

step_id : (s : FinishStep) (t t' : Task) → apply_step s t ≡ ok t' → t'.id ≡ t.id
unfolding apply_step
step_id store_completed t t' e = ap (λ u. u.id) (sym (ok-injective _ t' e))
step_id close_session t t' e = ap (λ u. u.id) (sym (ok-injective _ t' e))
step_id (store_result r) t t' e =
    ap (λ u. u.id) (sym (ok-injective (set_result r t) t' e)) ∙ result_id r t
step_id close_done t t' e = elim (Bool-cases t.done_closed) [
  | inl shut ↦ absurd (panic-ne-ok t' (rw shut at e))
  | inr still ↦ ap (λ u. u.id) (sym (ok-injective _ t' (rw still at e)))
]

some_task : (t u : Task) → ◌≡◌ {A = Option Task} (some t) (some u) → t ≡ u
some_task t u e = cc

module _ {W V : Type 0} (o : Outside W V) where
  served-Sound :
      (m : Moment) (tool : ServerTool) (req : Request) (st st' : State W V)
      (reply : ToolResult Value) (effects : List TaskEffect)
      → Sound st.client
      → Room st.client
      → ((address : Bytes) → m.listen address ≢ panic)
      → serve o m tool req st ≡ some (reply, effects, st')
      → Sound st'.client
  served-Sound m tool req st st' reply effects sound room listens e =
      elim (serve-Answers o m listens st sound room tool req) [
        | inl (r, fx, st'', f, sound') ↦ subst (λ s. Sound s.client) (state_of (sym f ∙ e)) sound'
        | inr (t, c, _, _, (_, _, _, _, _, _, _, none_at, _, _)) ↦
            absurd (no_reply (sym none_at ∙ e))
      ]
    where
      state_of :
          {r r' : ToolResult Value} {fx fx' : List TaskEffect} {s s' : State W V}
          → ◌≡◌ {A = Served W V} (some (r, fx, s)) (some (r', fx', s'))
          → s ≡ s'
      state_of e = cc

      no_reply : ◌≡◌ {A = Served W V} none (some (reply, effects, st')) → ⊥
      no_reply e = cc

  -- In every state that requests, served one after another, lead to, the registry of the tasks is well formed, and calls
  -- lead to the manager of the tunnels.
  pub Serving-Sound : (st : State W V) → Serving o st → Sound st.client
  Serving-Sound st (started cfg w v) = start-Sound o cfg w v
  Serving-Sound st' (served m tool req st _ reply effects run room listens e) =
      served-Sound m tool req st st' reply effects (Serving-Sound st run) room listens e
  Serving-Sound st' (wrote id out errors st run) =
      let (valid, tunnels) = Serving-Sound st run in
      (update-IsValid id (more_output out errors) st.client.task_mgr (λ t e. refl) valid, tunnels)
  Serving-Sound st' (finishing id s t t' st run found e) =
      let (valid, tunnels) = Serving-Sound st run in
      (
        update-IsValid id (λ _. t') st.client.task_mgr
            (λ u h. step_id s t t' e ∙ ap (λ x. x.id) (some_task t u (sym found ∙ h))) valid,
        tunnels,
      )

  -- In every state that requests, served one after another, lead to, whatever the next request, the
  -- tool replies, and no panic ends it; or it was asked to replace text, and the edit of a text with its
  -- arguments panics. The counters must be far from their end, and `net.Listen` must not panic.
  pub Serving-Answers :
      (st : State W V) (m : Moment) (tool : ServerTool) (req : Request)
      → Serving o st
      → Room st.client
      → ((address : Bytes) → m.listen address ≢ panic)
      → Answers (serve o m tool req st)
        ⊎ ((t : Tool) × (c : ClientCall) × (tool ≡ calls t)
            × (tool_call req t ≡ ok c)
            × EditPanics c (serve o m tool req st))
  Serving-Answers st m tool req run room listens =
      serve-Answers o m listens st (Serving-Sound st run) room tool req
