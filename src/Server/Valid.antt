-- ===== src/Server/Valid.antt =====
-- Every handler answers, and leaves the two managers well formed.
pub mod FileTools
pub mod CommandTools
pub mod AllTools
use mcp_ssh_workspace.Common.{
  ℕ, ◌+◌, ◌^◌, ◌<◌, ◌≡◌, ◌≢◌, ◌⊎◌, inl, inr, refl, sym, ap, ◌∙◌, Option, none, some, List, Bytes,
}
use mathlib.Core.Path.{subst}
use mcp_ssh_workspace.Common.Result.{panic}
use mcp_ssh_workspace.Tasks.Registry as Tasks
use mcp_ssh_workspace.Tunnels.Runs.{Run}
use mcp_ssh_workspace.Client.{Client}
use mcp_ssh_workspace.Tools.{ToolResult}
use mcp_ssh_workspace.Tools.Task.{TaskEffect}
use mcp_ssh_workspace.Server.{Moment, State, Value, Served, answer}

-- The registry of the tasks is well formed, and calls lead to the manager of the tunnels.
abbrev pub Sound : Client → Type 0
Sound c = Tasks.IsValid c.task_mgr × Run c.tunnel_mgr

-- Both counters are far from 2^63 - 1.
abbrev pub Room : Client → Type 0
Room c = (c.task_mgr.next_id + 1 < 2 ^ 63) × (c.tunnel_mgr.next_id + 1 < 2 ^ 63)

-- A reply, and a state that is sound; no panic.
abbrev pub Answers : {W V : Type 0} → Served W V → Type 0
Answers {W} {V} a =
    (reply : ToolResult Value) × (effects : List TaskEffect) × (st : State W V) × (a
      ≡ some (reply, effects, st))
    × Sound st.client

pub answered :
    {W V : Type 0}
    → (reply : ToolResult Value) (st : State W V) → Sound st.client
    → Answers (answer reply st)
answered reply st sound = (reply, _, st, refl, sound)

pub Sound-same :
    (c d : Client) → d.task_mgr ≡ c.task_mgr → d.tunnel_mgr ≡ c.tunnel_mgr → Sound c → Sound d
Sound-same c d tasks tunnels (valid, run) =
    (subst Tasks.IsValid (sym tasks) valid, subst Run (sym tunnels) run)
