-- ===== src/Server/Connected.antt =====
-- A request to connect to another host, from its parameters to the client.
use mcp_ssh_workspace.Common.{
  ◌≡◌, ◌≢◌, refl, sym, ◌∙◌, true, Option, none, some, inl, inr, List, [], Bytes, ◌++◌, codes,
}
use mathlib.Core.Path.{subst}
use mcp_ssh_workspace.Common.Int.{ℤ}
use mcp_ssh_workspace.Common.Result.{ok}
use mcp_ssh_workspace.Tunnels.Runs.{Run, Run-IsValid}
use mcp_ssh_workspace.Tunnels.Closing.{AllClosed}
use mcp_ssh_workspace.Client.{ConnectError, Client, is_connected}
use mcp_ssh_workspace.Client.Closing.{connect_to_cases}
use mcp_ssh_workspace.Tools.{Request, text}
use mcp_ssh_workspace.Tools.Calls.{connect_to, remote_connect, connect_call, tool_call}
use mcp_ssh_workspace.Tools.Task.{TaskEffect}
use mcp_ssh_workspace.Server.{Outside, Moment, State, Served, with_connection}
use mcp_ssh_workspace.Server.Commands.{connect_reply, serve_connect}
use mcp_ssh_workspace.Server.Tools.{calls, after_params, execute, serve}
use mcp_ssh_workspace.Server.Replied.{IsFine, Replies, required-Replies}
use mcp_ssh_workspace.Server.Serving.{Serving, Serving-Sound}

module _ {W V : Type 0} (o : Outside W V) (t : Bytes) (effects : List TaskEffect)
    (st' : State W V) where
  abbrev Says : Served W V → Type 0
  Says a = Replies o (text t) effects st' a

  text-IsFine : IsFine (text t)
  text-IsFine m e = cc

  -- The client is connected and in a directory, which the reply tells, and no tunnel is open.
  abbrev pub Connected : Bytes → State W V → Type 0
  Connected host st =
      AllClosed st.client.tunnel_mgr
      × (is_connected st.client ≡ true)
      × (st.client.current_cwd ≢ [])
      × (t
          ≡ codes "Successfully connected to "
            ++ (host ++ (codes ". CWD: " ++ st.client.current_cwd)))

  connect_reply_lem :
      (host : Bytes) (a : Option ConnectError × Client × W) (st : State W V)
      → Says (connect_reply host (ok a) st)
      → (a.0 ≡ none)
        × (t ≡ codes "Successfully connected to " ++ (host ++ (codes ". CWD: " ++ a.1.current_cwd)))
        × (with_connection a.1 a.2 st ≡ st')
  unfolding connect_reply
  connect_reply_lem host (none, c, w) st e = (refl, cc, cc)
  connect_reply_lem host (some why, c, w) st e = absurd cc

  serve_connect-Connected :
      (host : Bytes) (port : ℤ) (user key_path password sudo_password : Bytes) (st : State W V)
      → Run st.client.tunnel_mgr
      → Says (serve_connect o host port user key_path password sudo_password st)
      → Connected host st'
  unfolding serve_connect
  serve_connect-Connected host port user key_path password sudo_password st tunnels e =
      let (a, done, closed, outcome) =
        connect_to_cases o.machine o.network host port user key_path password sudo_password
          st.client st.world (Run-IsValid st.client.tunnel_mgr tunnels) in
      let (fine, says, same) = connect_reply_lem host a st (rw done at e) in
      subst (Connected host) same (elim outcome [
        | inl (_, up, there) ↦ (closed, up, there, says)
        | inr (why, failed, _) ↦ absurd (none_some why (sym fine ∙ failed))
      ])
    where
      none_some : (why : ConnectError) → ◌≡◌ {A = Option ConnectError} none (some why) → ⊥
      none_some why h = cc

  -- In a state that requests, served one after another, lead to: if `remote_connect` replies a text, the parameters named a
  -- host, the client is connected and in a directory, which the text tells, and no tunnel is open.
  pub connect_tool-Connected :
      (m : Moment) (req : Request) (st : State W V)
      → Serving o st
      → serve o m (calls remote_connect) req st ≡ some (text t, effects, st')
      → (host : Bytes) × (port : ℤ) × (user : Bytes) × (key_path : Bytes) × (password : Bytes)
        × (sudo_password : Bytes) × (tool_call req remote_connect
            ≡ ok (connect_to host port user key_path password sudo_password))
        × Connected host st'
  unfolding serve tool_call connect_call after_params execute
  connect_tool-Connected m req st run e =
      let (_, tunnels) = Serving-Sound o st run in
      let (given, replied) = required-Replies o (text t) effects st' m _ _ _ st text-IsFine e in
      let connected = serve_connect-Connected _ _ _ _ _ _ st tunnels replied in
      (_, _, _, _, _, _, given, connected)
