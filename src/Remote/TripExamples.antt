-- ===== src/Remote/TripExamples.antt =====
-- Runs of one method of internal/sshclient/sftp.go after another.
use mcp_ssh_workspace.Common.{◌≡◌, refl, false, some, [], ◌∷◌, codes, eqb, length}
use mcp_ssh_workspace.Common.Store.{fetch}
use mcp_ssh_workspace.Common.Dict.{lookup, insert, erase}
use mcp_ssh_workspace.Text.Search.{has_prefix, split_on, join_on}
use mcp_ssh_workspace.Text.Path.{is_abs, clean, join, dir}
use mcp_ssh_workspace.Remote.{whole, resolve_path, made, ensure_dir, make_parts, mkdir_all}
use mcp_ssh_workspace.Remote.Upload.{local_file, copy_opened, upload_into, upload_file}
use mcp_ssh_workspace.Remote.Download.{
  copy_into, local_opened, directory_made, remote_opened, download_file,
}
use mcp_ssh_workspace.Remote.LocalDisk.{disk, disk-Contents}
use mcp_ssh_workspace.Remote.Memory.{Host, directory, memory}
use mcp_ssh_workspace.Remote.Memory.Laws.{memory-Contents}
use mcp_ssh_workspace.Remote.RoundTrip.{upload_file-download_file}

abbrev host : Host
host = record { nodes = (codes "/a", directory) ∷ []; handles = [] }

abbrev empty_disk : Host
empty_disk = record { nodes = []; handles = [] }

upload_file-download_file_example :
    (disk-Contents.contents
        (codes "copy")
        (download_file disk memory
          (codes "copy")
          false
          (codes "/a")
          (codes "g")
          empty_disk
          (upload_file memory
            (local_file (whole (codes "text")))
            (resolve_path (codes "/a") (codes "g"))
            false
            host).1).1
      ≡ some (codes "text"))
    × (4 ≡ length (codes "text"))
    × (4 ≡ length (codes "text"))
unfolding upload_file upload_into copy_opened download_file remote_opened directory_made
    local_opened copy_into mkdir_all make_parts ensure_dir made dir resolve_path is_abs clean join
    split_on join_on has_prefix lookup insert erase fetch eqb
upload_file-download_file_example =
    upload_file-download_file memory memory-Contents (codes "/a") (codes "g") disk disk-Contents
      (codes "text") (codes "copy") false false empty_disk host 4 4 refl refl
