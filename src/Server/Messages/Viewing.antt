-- ===== src/Server/Messages/Viewing.antt =====
-- The texts of the errors of `ViewFile` and `ListDir`, internal/sshclient/sftp.go.
use mcp_ssh_workspace.Common.{Bytes, codes, ◌++◌}
use mcp_ssh_workspace.Text.Decimal.{format}
use mcp_ssh_workspace.Files.View.{ViewError, line_too_long, start_beyond}
use mcp_ssh_workspace.Remote.View.{
  ViewFileError, open_failed, stat_failed, is_a_directory, read_failed, not_viewed,
}
use mcp_ssh_workspace.Remote.Listing as Listing

abbrev pub lines_message : ViewError → Bytes
lines_message line_too_long = codes "error reading file content: bufio.Scanner: token too long"
lines_message (start_beyond start total) =
    codes "startLine ("
    ++ (format start ++ (codes ") exceeds total lines (" ++ (format total ++ codes ")")))

abbrev pub view_message : ViewFileError → Bytes
view_message (open_failed why) = codes "failed to open remote file: " ++ why
view_message (stat_failed why) = codes "failed to stat remote file: " ++ why
view_message (is_a_directory path) = codes "path " ++ (path ++ codes " is a directory, not a file")
view_message (read_failed why) = codes "error reading file content: " ++ why
view_message (not_viewed e) = lines_message e

abbrev pub list_message : Listing.ListError → Bytes
list_message (Listing.read_failed path why) =
    codes "failed to read directory " ++ (path ++ (codes ": " ++ why))
