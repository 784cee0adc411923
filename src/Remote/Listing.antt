-- ===== src/Remote/Listing.antt =====
-- `ListDir` of internal/sshclient/sftp.go.
use mcp_ssh_workspace.Common.{Bool, List, map, Bytes}
use mcp_ssh_workspace.Common.Int.{ℤ}
use mcp_ssh_workspace.Common.Result.{Result, ok, err}
use mcp_ssh_workspace.Remote.{FileInfo, Entries, entries, unreadable, Sftp, resolve_path}

pub record DirEntryInfo : Type 0 where
  pub name : Bytes
  pub is_dir : Bool
  pub size : ℤ
  pub mode : Bytes
  pub mod_time : Bytes

-- The path that was read, and why it could not be.
pub data ListError : Type 0 where
  read_failed : Bytes → Bytes → ListError

abbrev pub entry_info : FileInfo → DirEntryInfo
entry_info e = record {
  name = e.name;
  is_dir = e.is_dir;
  size = e.size;
  mode = e.mode;
  mod_time = e.mod_time;
}

unfoldable pub listed : Bytes → Entries → Result ListError (List DirEntryInfo)
listed path (entries es) = ok (map entry_info es)
listed path (unreadable why) = err (read_failed path why)

-- `ListDir`, once there is a connection.
unfoldable pub list_dir :
    {W : Type 0} → Sftp W → Bytes → Bytes → W → Result ListError (List DirEntryInfo)
unfolding listed
list_dir s cwd remote_path w =
    let path = resolve_path cwd remote_path in listed path (s.read_dir path w)
