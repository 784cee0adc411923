-- ===== src/Server/Valid/FileTools.antt =====
-- The file tools.
use mcp_ssh_workspace.Common.{
  ℕ, ◌≡◌, ◌≢◌, ◌⊎◌, inl, inr, refl, Bool, true, false, Option, none, some, List, Bytes, codes,
}
use mathlib.Core.Bool.{◌&&◌, false≢true}
use mcp_ssh_workspace.Common.Result.{Result, ok, err, panic}
use mcp_ssh_workspace.Client.{Client, ConnectError, is_connected, is_set, ensure_connected}
use mcp_ssh_workspace.Client.Connecting.{ensure-SameManagers, ensure_connected-Ready}
use mcp_ssh_workspace.Files.View.{ViewResult}
use mcp_ssh_workspace.Remote.{FileError, resolve_path}
use mcp_ssh_workspace.Remote.View.{ViewFileError, ViewArgs}
use mcp_ssh_workspace.Remote.Edit.{ReplaceResult, ReplaceError, ReplaceArgs, edit_of}
use mcp_ssh_workspace.Remote.Listing.{DirEntryInfo, ListError}
use mcp_ssh_workspace.Remote.Download.{DownloadError}
use mcp_ssh_workspace.Remote.Answers.{
  view_file_answers, list_dir_answers, upload_file_answers, download_file_answers,
  replace_file_content_panics,
}
use mcp_ssh_workspace.Tools.{ToolResult}
use mcp_ssh_workspace.Server.{
  Outside, State, Value, Served, answer, use_sftp, after_sftp, with_files,
}
use mcp_ssh_workspace.Server.Files.{
  view_reply, replace_reply, write_reply, list_reply, upload_reply, download_reply, serve_view,
  serve_replace, serve_write, serve_list, serve_upload, serve_download,
}
use mcp_ssh_workspace.Server.Valid.{Sound, Sound-same, Answers, answered}

module _ {W V : Type 0} (o : Outside W V) where
  -- What holds of every answer, and of what the handler does with a connection, holds of the tool.
  module _ (P : Served W V → Type 0)
      (replied : (reply : ToolResult Value) (st : State W V)
        → Sound st.client
        → P (answer reply st))
      (failed : Bytes) (handler : ℕ → State W V → Served W V)
      (handled : (h : ℕ) (st : State W V) → Sound st.client → P (handler h st)) where
    use-P :
        (handle : Option ℕ) (st : State W V)
        → st.client.sftp_client ≡ handle
        → is_connected st.client ≡ true
        → Sound st.client
        → P (use_sftp o handle handler st)
    unfolding use_sftp is_connected
    use-P none st e up sound = absurd (no_handle st.client.ssh_client (rw e at up))
      where
        no_handle : (h : Option ℕ) → (is_set h && false) ≡ true → ⊥
        no_handle none e = false≢true e
        no_handle (some h) e = false≢true e
    use-P (some h) st e up sound = handled h st sound

    after-P :
        (c : Client) (r : Option ConnectError × Client × W) (st : State W V)
        → (r.0 ≡ none → is_connected r.1 ≡ true)
        → Sound r.1
        → P (after_sftp o failed handler r st)
    unfolding after_sftp
    after-P c (some e, d, w) st up sound = replied _ _ sound
    after-P c (none, d, w) st up sound = use-P d.sftp_client _ refl (up refl) sound

    with_files-P : (st : State W V) → Sound st.client → P (with_files o failed handler st)
    unfolding with_files
    with_files-P st sound =
        let r = ensure_connected o.machine o.network st.client st.world in
        let (tasks, tunnels) = ensure-SameManagers o.machine o.network st.client st.world in
        after-P st.client r st
          (λ ok. (ensure_connected-Ready o.machine o.network st.client st.world ok).0)
          (Sound-same st.client r.1 tasks tunnels sound)

  view-Answers :
      (r : Result ViewFileError ViewResult × W) (st : State W V)
      → r.0 ≢ panic
      → Sound st.client
      → Answers (view_reply r st)
  unfolding view_reply
  view-Answers (ok r, w) st n sound = answered _ _ sound
  view-Answers (err e, w) st n sound = answered _ _ sound
  view-Answers (panic, w) st n sound = absurd (n refl)

  list-Answers :
      (r : Result ListError (List DirEntryInfo)) (st : State W V)
      → r ≢ panic
      → Sound st.client
      → Answers (list_reply r st)
  unfolding list_reply
  list-Answers (ok es) st n sound = answered _ _ sound
  list-Answers (err e) st n sound = answered _ _ sound
  list-Answers panic st n sound = absurd (n refl)

  write-Answers :
      (target_file content : Bytes) (r : Option FileError × W) (st : State W V)
      → Sound st.client
      → Answers (write_reply target_file content r st)
  unfolding write_reply
  write-Answers target_file content (none, w) st sound = answered _ _ sound
  write-Answers target_file content (some e, w) st sound = answered _ _ sound

  upload-Answers :
      (local_path remote_path path : Bytes) (r : Result FileError ℕ × W) (st : State W V)
      → r.0 ≢ panic
      → Sound st.client
      → Answers (upload_reply local_path remote_path path r st)
  unfolding upload_reply
  upload-Answers local_path remote_path path (ok n, w) st h sound = answered _ _ sound
  upload-Answers local_path remote_path path (err e, w) st h sound = answered _ _ sound
  upload-Answers local_path remote_path path (panic, w) st h sound = absurd (h refl)

  download-Answers :
      (remote_path local_path path : Bytes) (r : Result DownloadError ℕ × V × W) (st : State W V)
      → r.0 ≢ panic
      → Sound st.client
      → Answers (download_reply remote_path local_path path r st)
  unfolding download_reply
  download-Answers remote_path local_path path (ok n, v, w) st h sound = answered _ _ sound
  download-Answers remote_path local_path path (err e, v, w) st h sound = answered _ _ sound
  download-Answers remote_path local_path path (panic, v, w) st h sound = absurd (h refl)

  -- A panic that comes of the edit of a text.
  abbrev pub Panics : ReplaceArgs → Served W V → Type 0
  Panics args a = (a ≡ none) × (old : Bytes) × (edit_of args old ≡ panic)

  replace-Answers :
      (args : ReplaceArgs) (r : Result ReplaceError ReplaceResult × W) (st : State W V)
      → (r.0 ≡ panic → (old : Bytes) × (edit_of args old ≡ panic))
      → Sound st.client
      → Answers (replace_reply r st) ⊎ Panics args (replace_reply r st)
  unfolding replace_reply
  replace-Answers args (ok r, w) st n sound = inl (answered _ _ sound)
  replace-Answers args (err e, w) st n sound = inl (answered _ _ sound)
  replace-Answers args (panic, w) st n sound = let (old, why) = n refl in inr (refl, old, why)

  module _ (st : State W V) (sound : Sound st.client) where
    pub view_tool-Answers : (path : Bytes) (args : ViewArgs) → Answers (serve_view o path args st)
    unfolding serve_view
    view_tool-Answers path args =
        with_files-P Answers answered (codes "Failed to view file: ") _
          (λ h st'.
            view-Answers _ st'
              (view_file_answers (o.sftp h) st'.client.current_cwd path args st'.world))
          st sound

    pub write_tool-Answers :
        (path content : Bytes) (overwrite : Bool)
        → Answers (serve_write o path content overwrite st)
    unfolding serve_write
    write_tool-Answers path content overwrite =
        with_files-P Answers answered (codes "Failed to write file: ") _
          (λ h st'. write-Answers path content _ st') st sound

    pub list_tool-Answers : (path : Bytes) → Answers (serve_list o path st)
    unfolding serve_list
    list_tool-Answers path =
        with_files-P Answers answered (codes "Failed to list directory: ") _
          (λ h st'.
            list-Answers _ st' (list_dir_answers (o.sftp h) st'.client.current_cwd path st'.world))
          st sound

    pub upload_tool-Answers :
        (local_path remote_path : Bytes) (overwrite : Bool)
        → Answers (serve_upload o local_path remote_path overwrite st)
    unfolding serve_upload
    upload_tool-Answers local_path remote_path overwrite =
        with_files-P Answers answered (codes "Upload failed: ") _
          (λ h st'.
            let path = resolve_path st'.client.current_cwd remote_path in
            upload-Answers local_path remote_path path _ st' (
              upload_file_answers (o.sftp h) (o.read_local local_path st'.local_disk) path overwrite
                st'.world))
          st sound

    pub download_tool-Answers :
        (remote_path local_path : Bytes) (overwrite : Bool)
        → Answers (serve_download o remote_path local_path overwrite st)
    unfolding serve_download
    download_tool-Answers remote_path local_path overwrite =
        with_files-P Answers answered (codes "Download failed: ") _
          (λ h st'. download-Answers remote_path local_path _ _ st' (
            download_file_answers (o.sftp h) o.disk local_path overwrite st'.client.current_cwd
              remote_path st'.local_disk st'.world))
          st sound

    pub replace_tool-Answers :
        (now : ℕ) (path : Bytes) (args : ReplaceArgs)
        → Answers (serve_replace o now path args st)
          ⊎ Panics args (serve_replace o now path args st)
    unfolding serve_replace
    replace_tool-Answers now path args =
        with_files-P (λ a. Answers a ⊎ Panics args a) (λ reply st' s. inl (answered reply st' s))
          (codes "Failed to replace file content: ") _
          (λ h st'.
            replace-Answers args _ st' (
              replace_file_content_panics (o.sftp h) st'.client.current_cwd now path args
                st'.world))
          st sound
