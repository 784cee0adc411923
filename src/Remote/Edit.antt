-- ===== src/Remote/Edit.antt =====
-- `ReplaceFileContent` of internal/sshclient/sftp.go, with the reading and the writing of the file.
pub mod Effects
pub mod Keeping
use mcp_ssh_workspace.Common.{
  ℕ, ◌≡◌, Option, none, some, List, [], ◌∷◌, ◌++◌, Bytes, codes, length, Bool,
}
use mcp_ssh_workspace.Common.Int.{ℤ}
use mcp_ssh_workspace.Common.Result.{Result, ok, err, panic}
use mcp_ssh_workspace.Text.Decimal.{format, format_int64}
use mcp_ssh_workspace.Text.Search.{newline, split_on}
use mcp_ssh_workspace.Text.Path.{base}
use mcp_ssh_workspace.Files.Replace.{EditError, edit_text}
use mcp_ssh_workspace.Remote.{
  Opened, opened, refused, Read, whole, broken, Sftp, FileError, resolve_path, write_back,
}

pub record ReplaceResult : Type 0 where
  pub path : Bytes
  pub replacements : ℕ
  pub total_lines : ℕ
  pub message : Bytes

pub data ReplaceError : Type 0 where
  open_failed : Bytes → ReplaceError
  read_failed : Bytes → ReplaceError
  not_edited : EditError → ReplaceError
  not_written : FileError → ReplaceError

pub record ReplaceArgs : Type 0 where
  pub target_content : Bytes
  pub replacement_content : Bytes
  pub start_line : ℤ
  pub end_line : ℤ
  pub allow_multiple : Bool

abbrev pub edit_of : ReplaceArgs → Bytes → Result EditError (Bytes × ℕ)
edit_of args text =
    edit_text text args.target_content args.replacement_content args.start_line args.end_line
      args.allow_multiple

-- remotePath + fmt.Sprintf(".tmp.%d", time.Now().UnixNano()), with the bits of the time
unfoldable pub temp_remote : Bytes → ℕ → Bytes
temp_remote path now = path ++ (codes ".tmp." ++ format_int64 now)

unfoldable pub replace_result : Bytes → Bytes → ℕ → ReplaceResult
replace_result path new_text n = record {
  path = path;
  replacements = n;
  total_lines = length (split_on newline new_text);
  message =
      codes "Successfully replaced " ++ (format n ++ (codes " occurrence(s) in " ++ base path));
}

module _ {W : Type 0} (s : Sftp W) (path : Bytes) (now : ℕ) (args : ReplaceArgs) where
  unfoldable pub after_write_back :
      Bytes → ℕ → Option FileError × W → Result ReplaceError ReplaceResult × W
  after_write_back new_text n (none, w) = (ok (replace_result path new_text n), w)
  after_write_back new_text n (some e, w) = (err (not_written e), w)

  unfoldable pub after_edit :
      Result EditError (Bytes × ℕ) → W → Result ReplaceError ReplaceResult × W
  unfolding after_write_back
  after_edit (ok (new_text, n)) w =
      after_write_back new_text n (write_back s (temp_remote path now) path new_text w)
  after_edit (err e) w = (err (not_edited e), w)
  after_edit panic w = (panic, w)

  unfoldable pub after_read : Read × W → Result ReplaceError ReplaceResult × W
  unfolding after_edit
  after_read (whole text, w) = after_edit (edit_of args text) w
  after_read (broken text why, w) = (err (read_failed why), w)

  -- The handle for reading is closed last, whatever comes of the edit.
  unfoldable pub replace_opened : Opened × W → Result ReplaceError ReplaceResult × W
  unfolding after_read
  replace_opened (refused why, w) = (err (open_failed why), w)
  replace_opened (opened h, w) = let (r, w') = after_read (s.read_all h w) in (r, s.close h w')

-- `ReplaceFileContent`, once there is a connection.
unfoldable pub replace_file_content :
    {W : Type 0}
    → Sftp W
    → Bytes
    → ℕ
    → Bytes
    → ReplaceArgs
    → W
    → Result ReplaceError ReplaceResult × W
unfolding replace_opened
replace_file_content s cwd now remote_path args w =
    let path = resolve_path cwd remote_path in replace_opened s path now args (s.open_read path w)
