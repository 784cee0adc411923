-- ===== src/Server.antt =====
-- The handlers of internal/tools/register.go, on the whole state of the program.
pub mod Messages
pub mod Commands
pub mod Files
pub mod Tools
pub mod Schemas
pub mod Replied
pub mod Written
pub mod Viewed
pub mod Edited
pub mod Copied
pub mod RoundTrip
pub mod Connected
pub mod Ran
pub mod Valid
pub mod Serving
pub mod Examples
pub mod ConnectExamples
pub mod FileExamples
pub mod CopyExamples
pub mod TripExamples
pub mod RunExamples
use mcp_ssh_workspace.Common.{ℕ, Bool, Option, none, some, List, [], ◌++◌, Bytes, codes}
use mcp_ssh_workspace.Common.Result.{Result}
use mcp_ssh_workspace.Config.{Machine}
use mcp_ssh_workspace.Client.{Client, Network, ConnectError, ensure_connected}
use mcp_ssh_workspace.Client.Run.{ExecResult, Sessions}
use mcp_ssh_workspace.Files.View.{ViewResult}
use mcp_ssh_workspace.Remote.{Sftp}
use mcp_ssh_workspace.Remote.Edit.{ReplaceResult}
use mcp_ssh_workspace.Remote.Listing.{DirEntryInfo}
use mcp_ssh_workspace.Remote.Upload.{Local}
use mcp_ssh_workspace.Remote.Download.{Disk}
use mcp_ssh_workspace.Tools.{ToolResult, error}
use mcp_ssh_workspace.Tools.Task.{TaskReply, TaskEffect}
use mcp_ssh_workspace.Tools.Tunnel.{TunnelReply}
use mcp_ssh_workspace.Server.Messages.Connection.{connect_message}

-- What is outside of the program: the machine, the libraries on the state `W` of the network and the
-- remote host, where an SFTP client is a handle, and package `os` on the state `V` of the local disk.
-- `is_print` is the table of `unicode.IsPrint`.
pub record Outside (W V : Type 0) : Type 0 where
  pub machine : Machine
  pub network : Network W
  pub sessions : Sessions W
  pub sftp : ℕ → Sftp W
  pub disk : Disk V
  pub read_local : Bytes → V → Local
  pub is_print : ℕ → Bool

-- What a request meets: the clock, as a number and as a text, the answers of `net.Listen`, and those
-- of a write to the standard input of a task.
pub record Moment : Type 0 where
  pub nanos : ℕ
  pub clock : Bytes
  pub listen : Bytes → Result Bytes (ℕ × ℕ)
  pub stdin_answer : ℕ → Bytes → Option Bytes

pub record State (W V : Type 0) : Type 0 where
  pub client : Client
  pub world : W
  pub local_disk : V

-- The values that are turned into JSON.
pub data Value : Type 0 where
  exec_result : ExecResult → Value
  task_reply : TaskReply → Value
  tunnel_reply : TunnelReply → Value
  view_result : ViewResult → Value
  replace_result : ReplaceResult → Value
  dir_entries : List DirEntryInfo → Value
  -- current_cwd remote_info sudo_configured
  session_info : Bytes → Bytes → Bool → Value

-- The reply, what the task tool asks of the SSH library, and the state behind it; `none` is a panic.
abbrev pub Served : Type 0 → Type 0 → Type 0
Served W V = Option (ToolResult Value × List TaskEffect × State W V)

module _ {W V : Type 0} where
  abbrev pub answer : ToolResult Value → State W V → Served W V
  answer reply st = some (reply, [], st)

  abbrev pub with_connection : Client → W → State W V → State W V
  with_connection c w st = record st { client = c; world = w }

  abbrev pub with_world : W → State W V → State W V
  with_world w st = record st { world = w }

  module _ (o : Outside W V) where
    -- A `nil` SFTP client panics.
    unfoldable pub use_sftp : Option ℕ → (ℕ → State W V → Served W V) → State W V → Served W V
    use_sftp none handler st = none
    use_sftp (some sftp_cli) handler st = handler sftp_cli st

    -- What the methods of sftp.go do with the answer of `SFTP()`.
    unfoldable pub after_sftp :
        Bytes
        → (ℕ → State W V → Served W V)
        → Option ConnectError × Client × W
        → State W V
        → Served W V
    unfolding use_sftp
    after_sftp failed handler (some e, c, w) st =
        answer (error (failed ++ connect_message e)) (with_connection c w st)
    after_sftp failed handler (none, c, w) st =
        use_sftp c.sftp_client handler (with_connection c w st)

    -- `failed` stands in front of the error in the reply.
    unfoldable pub with_files : Bytes → (ℕ → State W V → Served W V) → State W V → Served W V
    unfolding after_sftp
    with_files failed handler st =
        after_sftp failed handler (ensure_connected o.machine o.network st.client st.world) st
