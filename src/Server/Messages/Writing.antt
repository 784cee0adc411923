-- ===== src/Server/Messages/Writing.antt =====
-- The texts of the errors of `WriteFile`, `UploadFile` and `DownloadFile`, internal/sshclient/sftp.go.
use mcp_ssh_workspace.Common.{Bytes, codes, ◌++◌}
use mcp_ssh_workspace.Text.Path.{dir}
use mcp_ssh_workspace.Remote.{
  FileError, not_a_directory, mkdir_failed, already_exists, open_failed, write_failed, local_failed,
}
use mcp_ssh_workspace.Remote.Download as Download

-- The errors of the other methods do not occur.
abbrev pub write_message : FileError → Bytes
write_message (not_a_directory p) =
    codes "failed to create parent directories: " ++ (p ++ codes " is not a directory")
write_message (mkdir_failed why) = codes "failed to create parent directories: " ++ why
write_message (already_exists p) =
    codes "file " ++ (p ++ codes " already exists and overwrite is false")
write_message (open_failed why) = codes "failed to create/open file: " ++ why
write_message (write_failed why) = codes "failed to write file content: " ++ why
write_message _ = codes ""

abbrev about : Bytes → Bytes → Bytes → Bytes
about what path why = what ++ (path ++ (codes ": " ++ why))

abbrev pub upload_message : Bytes → Bytes → FileError → Bytes
upload_message local_path path (local_failed why) =
    about (codes "failed to open local file ") local_path why
upload_message local_path path (not_a_directory p) =
    about (codes "failed to create remote directory ") (dir path) (p ++ codes " is not a directory")
upload_message local_path path (mkdir_failed why) =
    about (codes "failed to create remote directory ") (dir path) why
upload_message local_path path (open_failed why) =
    about (codes "failed to open remote file ") path why
upload_message local_path path (write_failed why) = codes "failed to upload file: " ++ why
upload_message local_path path _ = codes ""

abbrev pub download_message : Bytes → Bytes → Download.DownloadError → Bytes
download_message local_path path (Download.remote_failed why) =
    about (codes "failed to open remote file ") path why
download_message local_path path (Download.directory_failed why) =
    about (codes "failed to create local directory ") (dir local_path) why
download_message local_path path (Download.local_failed why) =
    about (codes "failed to open local file ") local_path why
download_message local_path path (Download.copy_failed why) =
    codes "failed to download file: " ++ why
