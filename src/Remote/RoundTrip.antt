-- ===== src/Remote/RoundTrip.antt =====
-- What one method of internal/sshclient/sftp.go wrote, another one reads.
use mcp_ssh_workspace.Common.{ℕ, ◌≡◌, sym, ap, ◌∙◌, Bool, Option, none, some, List, Bytes, length}
use mcp_ssh_workspace.Common.Result.{ok}
use mcp_ssh_workspace.Files.View.{ViewResult, scan_lines}
use mcp_ssh_workspace.Remote.{whole, Sftp, resolve_path, write_file}
use mcp_ssh_workspace.Remote.Writing.{Contents, write_file_writes}
use mcp_ssh_workspace.Remote.View.{ViewArgs, view_file}
use mcp_ssh_workspace.Remote.View.Shown.{Shown, view_file-Shown}
use mcp_ssh_workspace.Remote.Upload.{local_file, upload_file, upload_file-Uploaded}
use mcp_ssh_workspace.Remote.Download.{Disk, download_file}
use mcp_ssh_workspace.Remote.Download.Copied.{DiskContents, download_file-Downloaded}

some_text : (a b : Bytes) → ◌≡◌ {A = Option Bytes} (some a) (some b) → a ≡ b
some_text a b e = cc

module _ {W : Type 0} (s : Sftp W) (laws : Contents s) (cwd p : Bytes) where
  abbrev path : Bytes
  path = resolve_path cwd p

  -- A file that was written without an error, and is viewed next, shows the lines of the content.
  pub write_file-view_file :
      (content : Bytes) (overwrite : Bool) (args : ViewArgs) (w : W) (r : ViewResult)
      → (write_file s path content overwrite w).0 ≡ none
      → (view_file s cwd p args (write_file s path content overwrite w).1).0 ≡ ok r
      → (ls : List Bytes) × (scan_lines content ≡ some ls) × Shown ls args r
  write_file-view_file content overwrite args w r written viewed =
      let w' = (write_file s path content overwrite w).1 in
      let (full, _) = write_file_writes s laws path content overwrite w written in
      let (text, ls, held, lines, shown) = view_file-Shown s laws cwd p args w' r viewed in
      let same : text ≡ content = some_text text content (sym held ∙ full) in
      (ls, ap scan_lines (sym same) ∙ lines, shown)

  -- A local file that is uploaded, and downloaded again next, arrives with its content, and both
  -- calls answer its length.
  pub upload_file-download_file :
      {V : Type 0}
      → (d : Disk V) (disk : DiskContents d) (content local_path : Bytes) (overwrite again : Bool)
        (v : V) (w : W) (k j : ℕ)
      → (upload_file s (local_file (whole content)) path overwrite w).0 ≡ ok k
      → (download_file d s local_path again cwd p v
          (upload_file s (local_file (whole content)) path overwrite w).1).0
        ≡ ok j
      → (disk.contents local_path
            (download_file d s local_path again cwd p v
              (upload_file s (local_file (whole content)) path overwrite w).1).1
          ≡ some content)
        × (k ≡ length content)
        × (j ≡ length content)
  upload_file-download_file d disk content local_path overwrite again v w k j up down =
      let w' = (upload_file s (local_file (whole content)) path overwrite w).1 in
      let (sent, source, full, counted) =
        upload_file-Uploaded s laws path (local_file (whole content)) overwrite w k up in
      let (text, held, arrived, counted', _) =
        download_file-Downloaded d disk local_path s again laws cwd p v w' j down in
      let same_sent : sent ≡ content = content_of sent content source in
      let same : text ≡ sent = some_text text sent (sym held ∙ full) in
      let all = same ∙ same_sent in
      (arrived ∙ ap some all, counted ∙ ap length same_sent, counted' ∙ ap length all)
    where
      content_of : (a b : Bytes) → local_file (whole b) ≡ local_file (whole a) → a ≡ b
      content_of a b e = cc
