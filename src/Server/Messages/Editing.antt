-- ===== src/Server/Messages/Editing.antt =====
-- The texts of the errors of `ReplaceFileContent`, internal/sshclient/sftp.go.
use mcp_ssh_workspace.Common.{ℕ, Bytes, codes, ◌++◌}
use mcp_ssh_workspace.Text.Decimal.{format}
use mcp_ssh_workspace.Files.Replace.{
  EditError, start_beyond, not_in_range, many_in_range, not_in_file, many_in_file,
}
use mcp_ssh_workspace.Remote as Remote
use mcp_ssh_workspace.Remote.Edit.{ReplaceError, open_failed, read_failed, not_edited, not_written}

abbrev range_text : ℕ → ℕ → Bytes
range_text start end =
    codes "range [" ++ (format start ++ (codes ", " ++ (format end ++ codes "]")))

abbrev pub edit_message : EditError → Bytes
edit_message (start_beyond start total) =
    codes "startLine " ++ (format start ++ (codes " exceeds total lines " ++ format total))
edit_message (not_in_range start end) =
    codes "target content not found within specified line " ++ range_text start end
edit_message (many_in_range n start end) =
    codes "target content found "
    ++ (format n
        ++ (codes " times within "
            ++ (range_text start end
                ++ codes "; specify exact line range or set allowMultiple: true")))
edit_message not_in_file = codes "target content not found in file"
edit_message (many_in_file n) =
    codes "target content found "
    ++ (format n ++ codes " times in file; specify line range or set allowMultiple: true")

-- The errors of the write-back; it meets no other.
abbrev pub write_back_message : Remote.FileError → Bytes
write_back_message (Remote.temporary_failed why) =
    codes "failed to create temporary file for atomic write: " ++ why
write_back_message (Remote.content_failed why) = codes "failed to write content: " ++ why
write_back_message (Remote.overwrite_failed why) =
    codes "failed to overwrite original file: " ++ why
write_back_message (Remote.write_failed why) = codes "failed to write file: " ++ why
write_back_message _ = codes ""

abbrev pub replace_message : ReplaceError → Bytes
replace_message (open_failed why) = codes "failed to open remote file: " ++ why
replace_message (read_failed why) = codes "failed to read remote file: " ++ why
replace_message (not_edited e) = edit_message e
replace_message (not_written e) = write_back_message e
