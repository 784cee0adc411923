-- ===== src/Server/Files.antt =====
-- The replies of the file tools.
use mcp_ssh_workspace.Common.{ℕ, Bool, Option, none, some, List, ◌++◌, Bytes, codes, length}
use mcp_ssh_workspace.Common.Result.{Result, ok, err, panic}
use mcp_ssh_workspace.Text.Decimal.{format}
use mcp_ssh_workspace.Files.View.{ViewResult}
use mcp_ssh_workspace.Remote.{FileError, resolve_path, write_file}
use mcp_ssh_workspace.Remote.View.{ViewFileError, ViewArgs, view_file}
use mcp_ssh_workspace.Remote.Edit.{ReplaceResult, ReplaceError, ReplaceArgs, replace_file_content}
use mcp_ssh_workspace.Remote.Listing.{DirEntryInfo, ListError, list_dir}
use mcp_ssh_workspace.Remote.Upload.{upload_file}
use mcp_ssh_workspace.Remote.Download.{DownloadError, download_file}
use mcp_ssh_workspace.Tools.{text, json, error}
use mcp_ssh_workspace.Server.Messages.Viewing.{view_message, list_message}
use mcp_ssh_workspace.Server.Messages.Editing.{replace_message}
use mcp_ssh_workspace.Server.Messages.Writing.{write_message, upload_message, download_message}
use mcp_ssh_workspace.Server.{
  Outside, State, view_result, replace_result, dir_entries, Served, answer, with_world, with_files,
}

abbrev pub copied_text : Bytes → ℕ → Bytes → Bytes → Bytes
copied_text done n source destination =
    done ++ (format n ++ (codes " bytes: " ++ (source ++ (codes " -> " ++ destination))))

module _ {W V : Type 0} where
  unfoldable pub view_reply : Result ViewFileError ViewResult × W → State W V → Served W V
  view_reply (ok r, w) st = answer (json (view_result r)) (with_world w st)
  view_reply (err e, w) st =
      answer (error (codes "Failed to view file: " ++ view_message e)) (with_world w st)
  view_reply (panic, w) st = none

  unfoldable pub replace_reply : Result ReplaceError ReplaceResult × W → State W V → Served W V
  replace_reply (ok r, w) st = answer (json (replace_result r)) (with_world w st)
  replace_reply (err e, w) st =
      answer (error (codes "Failed to replace file content: " ++ replace_message e))
        (with_world w st)
  replace_reply (panic, w) st = none

  unfoldable pub write_reply : Bytes → Bytes → Option FileError × W → State W V → Served W V
  write_reply target_file content (none, w) st =
      answer
        (text (
          codes "Successfully wrote "
          ++ (format (length content) ++ (codes " bytes to " ++ target_file))))
        (with_world w st)
  write_reply target_file content (some e, w) st =
      answer (error (codes "Failed to write file: " ++ write_message e)) (with_world w st)

  unfoldable pub list_reply : Result ListError (List DirEntryInfo) → State W V → Served W V
  list_reply (ok es) st = answer (json (dir_entries es)) st
  list_reply (err e) st = answer (error (codes "Failed to list directory: " ++ list_message e)) st
  list_reply panic st = none

  -- The first path is the one of the request, the second one is resolved.
  unfoldable pub upload_reply :
      Bytes → Bytes → Bytes → Result FileError ℕ × W → State W V → Served W V
  upload_reply local_path remote_path path (ok n, w) st =
      answer (text (copied_text (codes "Successfully uploaded ") n local_path remote_path))
        (with_world w st)
  upload_reply local_path remote_path path (err e, w) st =
      answer (error (codes "Upload failed: " ++ upload_message local_path path e)) (with_world w st)
  upload_reply local_path remote_path path (panic, w) st = none

  unfoldable pub download_reply :
      Bytes → Bytes → Bytes → Result DownloadError ℕ × V × W → State W V → Served W V
  download_reply remote_path local_path path (ok n, v, w) st =
      answer (text (copied_text (codes "Successfully downloaded ") n remote_path local_path))
        (record st { world = w; local_disk = v })
  download_reply remote_path local_path path (err e, v, w) st =
      answer (error (codes "Download failed: " ++ download_message local_path path e))
        (record st { world = w; local_disk = v })
  download_reply remote_path local_path path (panic, v, w) st = none

  -- `ViewFile` takes an offset too, which it does not use.
  module _ (o : Outside W V) where
    unfoldable pub serve_view : Bytes → ViewArgs → State W V → Served W V
    unfolding with_files view_reply
    serve_view path args st =
        with_files o (codes "Failed to view file: ")
          (λ h st'.
            view_reply (view_file (o.sftp h) st'.client.current_cwd path args st'.world) st')
          st

    unfoldable pub serve_replace : ℕ → Bytes → ReplaceArgs → State W V → Served W V
    unfolding with_files replace_reply
    serve_replace now path args st =
        with_files o (codes "Failed to replace file content: ")
          (λ h st'.
            replace_reply
              (replace_file_content (o.sftp h) st'.client.current_cwd now path args st'.world) st')
          st

    unfoldable pub serve_write : Bytes → Bytes → Bool → State W V → Served W V
    unfolding with_files write_reply
    serve_write target_file content overwrite st =
        with_files o (codes "Failed to write file: ")
          (λ h st'.
            write_reply target_file content
              (write_file (o.sftp h) (resolve_path st'.client.current_cwd target_file) content
                overwrite st'.world)
              st')
          st

    unfoldable pub serve_list : Bytes → State W V → Served W V
    unfolding with_files list_reply
    serve_list dir_path st =
        with_files o (codes "Failed to list directory: ")
          (λ h st'. list_reply (list_dir (o.sftp h) st'.client.current_cwd dir_path st'.world) st')
          st

    unfoldable pub serve_upload : Bytes → Bytes → Bool → State W V → Served W V
    unfolding with_files upload_reply
    serve_upload local_path remote_path overwrite st =
        with_files o (codes "Upload failed: ")
          (λ h st'.
            let path = resolve_path st'.client.current_cwd remote_path in
            upload_reply local_path remote_path path
              (upload_file (o.sftp h) (o.read_local local_path st'.local_disk) path overwrite
                st'.world)
              st')
          st

    unfoldable pub serve_download : Bytes → Bytes → Bool → State W V → Served W V
    unfolding with_files download_reply
    serve_download remote_path local_path overwrite st =
        with_files o (codes "Download failed: ")
          (λ h st'.
            let cwd = st'.client.current_cwd in
            download_reply remote_path local_path (resolve_path cwd remote_path)
              (download_file o.disk (o.sftp h) local_path overwrite cwd remote_path st'.local_disk
                st'.world)
              st')
          st
