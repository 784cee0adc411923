-- ===== src/Server/Replied.antt =====
-- What stands behind a reply of a file tool that is no error.
use mcp_ssh_workspace.Common.{
  ℕ, ◌≡◌, ◌≢◌, refl, Bool-cases, inl, inr, Option, none, some, List, [], Bytes, eqb,
}
use mcp_ssh_workspace.Common.Result.{Result}
use mcp_ssh_workspace.Client.{ConnectError, Client, ensure_connected}
use mcp_ssh_workspace.Tools.{ToolResult, error}
use mcp_ssh_workspace.Tools.Calls.{ClientCall, required}
use mcp_ssh_workspace.Tools.Task.{TaskEffect}
use mcp_ssh_workspace.Server.{
  Outside, Moment, State, Value, Served, answer, with_connection, use_sftp, after_sftp, with_files,
}
use mcp_ssh_workspace.Server.Tools.{after_params}

-- The reply is no error.
abbrev pub IsFine : ToolResult Value → Type 0
IsFine r = (m : Bytes) → error m ≢ r

module _ {W V : Type 0} (o : Outside W V) where
  -- The state behind `ensure_connected`.
  abbrev pub online : State W V → State W V
  online st =
      let e = ensure_connected o.machine o.network st.client st.world in with_connection e.1 e.2 st

  module _ (r : ToolResult Value) (effects : List TaskEffect) (st' : State W V) where
    abbrev pub Replies : Served W V → Type 0
    Replies a = a ≡ some (r, effects, st')

    pub error-Replies :
        (message : Bytes) (st : State W V) → IsFine r → Replies (answer (error message) st) → ⊥
    error-Replies message st fine e = fine message (reply_of _ _ _ _ _ _ e)
      where
        reply_of :
            (a b : ToolResult Value) (x y : List TaskEffect) (s t : State W V)
            → ◌≡◌ {A = Served W V} (some (a, x, s)) (some (b, y, t))
            → a ≡ b
        reply_of a b x y s t e = cc

    use-Replies :
        (handle : Option ℕ) (handler : ℕ → State W V → Served W V) (st : State W V)
        → Replies (use_sftp o handle handler st)
        → (h : ℕ) × Replies (handler h st)
    unfolding use_sftp
    use-Replies none handler st e = absurd cc
    use-Replies (some h) handler st e = (h, e)

    after-Replies :
        (failed : Bytes) (handler : ℕ → State W V → Served W V)
        (e : Option ConnectError × Client × W) (st : State W V)
        → IsFine r
        → Replies (after_sftp o failed handler e st)
        → (h : ℕ) × Replies (handler h (with_connection e.1 e.2 st))
    unfolding after_sftp
    after-Replies failed handler (some why, c, w) st fine e = absurd (error-Replies _ _ fine e)
    after-Replies failed handler (none, c, w) st fine e =
        use-Replies c.sftp_client handler (with_connection c w st) e

    -- The handler made the reply, for a client that is connected.
    pub files-Replies :
        (failed : Bytes) (handler : ℕ → State W V → Served W V) (st : State W V)
        → IsFine r
        → Replies (with_files o failed handler st)
        → (h : ℕ) × Replies (handler h (online st))
    unfolding with_files
    files-Replies failed handler st fine e =
        after-Replies failed handler (ensure_connected o.machine o.network st.client st.world) st
          fine e

    -- A required parameter was given.
    pub required-Replies :
        (m : Moment) (name v : Bytes) (call : Bytes → Result Bytes ClientCall) (st : State W V)
        → IsFine r
        → Replies (after_params o m (required name v call) st)
        → (required name v call ≡ call v) × Replies (after_params o m (call v) st)
    unfolding after_params required
    required-Replies m name v call st fine e = elim (Bool-cases (eqb v [])) [
      | inl blank ↦ absurd (error-Replies _ st fine (rw blank at e))
      | inr given ↦ (rw given refl, rw given at e)
    ]
