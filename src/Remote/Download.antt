-- ===== src/Remote/Download.antt =====
-- `DownloadFile` of internal/sshclient/sftp.go, from the remote host to the local disk.
pub mod Copied
use mcp_ssh_workspace.Common.{
  ℕ, ◌≡◌, ◌⊎◌, inl, inr, refl, sym, ap, ◌∙◌, Bool, true, false, Option, none, some, [], Bytes,
  length, if◌then◌else◌,
}
use mcp_ssh_workspace.Common.Result.{Result, ok, err, err-ne-ok, ok-injective}
use mcp_ssh_workspace.Text.Path.{dir}
use mcp_ssh_workspace.Remote.{
  Mode, write_truncate, write_exclusive, Opened, opened, refused, Read, whole, broken, Sftp,
  resolve_path,
}
use mcp_ssh_workspace.Remote.Writing.{Contents}

-- The calls of package `os`, on the state `V` of the local disk.
pub record Disk (V : Type 0) : Type 0 where
  pub mkdir_all : Bytes → V → Option Bytes × V
  pub open_file : Mode → Bytes → V → Opened × V
  pub write : ℕ → Bytes → V → Option Bytes × V
  pub close : ℕ → V → V

pub data DownloadError : Type 0 where
  remote_failed : Bytes → DownloadError
  directory_failed : Bytes → DownloadError
  local_failed : Bytes → DownloadError
  copy_failed : Bytes → DownloadError

module _ {V : Type 0} (d : Disk V) where
  -- `io.Copy` writes what it could read; an error of the write is met first.
  abbrev pub copy_result : Bytes → Option Bytes → Option Bytes → Result DownloadError ℕ
  copy_result text (some why) read_error = err (copy_failed why)
  copy_result text none (some why) = err (copy_failed why)
  copy_result text none none = ok (length text)

  unfoldable pub copy_into : ℕ → Read → V → Result DownloadError ℕ × V
  copy_into g (whole text) v =
      let (e, v') = d.write g text v in (copy_result text e none, d.close g v')
  copy_into g (broken text why) v =
      let (e, v') = d.write g text v in (copy_result text e (some why), d.close g v')

  abbrev pub download_mode : Bool → Mode
  download_mode overwrite = if overwrite then write_truncate else write_exclusive

  module _ {W : Type 0} (s : Sftp W) (local_path : Bytes) (overwrite : Bool) where
    unfoldable pub local_opened : ℕ → Opened × V → W → Result DownloadError ℕ × V × W
    unfolding copy_into
    local_opened h (refused why, v) w = (err (local_failed why), v, s.close h w)
    local_opened h (opened g, v) w =
        let (r, w') = s.read_all h w in let (n, v') = copy_into g r v in (n, v', s.close h w')

    unfoldable pub directory_made : ℕ → Option Bytes × V → W → Result DownloadError ℕ × V × W
    unfolding local_opened
    directory_made h (some why, v) w = (err (directory_failed why), v, s.close h w)
    directory_made h (none, v) w =
        local_opened h (d.open_file (download_mode overwrite) local_path v) w

    unfoldable pub remote_opened : Opened × W → V → Result DownloadError ℕ × V × W
    unfolding directory_made
    remote_opened (refused why, w) v = (err (remote_failed why), v, w)
    remote_opened (opened h, w) v = directory_made h (d.mkdir_all (dir local_path) v) w

    -- `DownloadFile`, once there is a connection.
    unfoldable pub download_file : Bytes → Bytes → V → W → Result DownloadError ℕ × V × W
    unfolding remote_opened
    download_file cwd remote_path v w =
        remote_opened (s.open_read (resolve_path cwd remote_path) w) v
