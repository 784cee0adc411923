-- ===== src/Server/Copied.antt =====
-- Requests to upload and to download a file, from their parameters to the copy.
use mcp_ssh_workspace.Common.{
  ℕ, ◌≡◌, ◌⊎◌, refl, ap, ◌∙◌, Bool, true, none, some, List, Bytes, codes, length,
}
use mathlib.Core.Path.{subst}
use mcp_ssh_workspace.Common.Result.{Result, ok, err, panic}
use mcp_ssh_workspace.Remote.{whole, FileError, resolve_path}
use mcp_ssh_workspace.Remote.Upload as Upload
use mcp_ssh_workspace.Remote.Upload.{local_file, upload_file-Uploaded}
use mcp_ssh_workspace.Remote.Download as Download
use mcp_ssh_workspace.Remote.Download.{DownloadError}
use mcp_ssh_workspace.Remote.Download.Copied.{DiskContents, download_file-Downloaded}
use mcp_ssh_workspace.Remote.Writing.{Contents}
use mcp_ssh_workspace.Tools.{Request, text}
use mcp_ssh_workspace.Tools.Calls.{
  upload_file, download_file, remote_upload_file, remote_download_file, upload_call, download_call,
  tool_call,
}
use mcp_ssh_workspace.Tools.Task.{TaskEffect}
use mcp_ssh_workspace.Server.{Outside, Moment, State, Served, with_world}
use mcp_ssh_workspace.Server.Files.{
  copied_text, upload_reply, serve_upload, download_reply, serve_download,
}
use mcp_ssh_workspace.Server.Tools.{calls, after_params, execute, serve}
use mcp_ssh_workspace.Server.Replied.{IsFine, Replies, online, files-Replies, required-Replies}

module _ {W V : Type 0} (o : Outside W V) (laws : (h : ℕ) → Contents (o.sftp h)) (t : Bytes)
    (effects : List TaskEffect) (st' : State W V) where
  abbrev Says : Served W V → Type 0
  Says a = Replies o (text t) effects st' a

  text-IsFine : IsFine (text t)
  text-IsFine m e = cc

  upload_reply_lem :
      (local_path remote_path path : Bytes) (a : Result FileError ℕ × W) (st : State W V)
      → Says (upload_reply local_path remote_path path a st)
      → (k : ℕ) × (a.0 ≡ ok k)
        × (t ≡ copied_text (codes "Successfully uploaded ") k local_path remote_path)
        × (with_world a.1 st ≡ st')
  unfolding upload_reply
  upload_reply_lem local_path remote_path path (ok k, w) st e = (k, refl, cc, cc)
  upload_reply_lem local_path remote_path path (err why, w) st e = absurd cc
  upload_reply_lem local_path remote_path path (panic, w) st e = absurd cc

  -- The local file held what the remote file holds, and the reply tells how many bytes those are.
  abbrev pub Uploaded : Bytes → Bytes → State W V → Type 0
  Uploaded local_path remote_path st =
      (h : ℕ) × (content : Bytes) × (o.read_local local_path st.local_disk
        ≡ local_file (whole content))
      × ((laws h).contents (resolve_path st.client.current_cwd remote_path) st.world ≡ some content)
      × (t ≡ copied_text (codes "Successfully uploaded ") (length content) local_path remote_path)

  serve_upload-Uploaded :
      (local_path remote_path : Bytes) (overwrite : Bool) (st : State W V)
      → Says (serve_upload o local_path remote_path overwrite st)
      → Uploaded local_path remote_path st'
  unfolding serve_upload
  serve_upload-Uploaded local_path remote_path overwrite st e =
      let (h, replied) =
        files-Replies o (text t) effects st' (codes "Upload failed: ") _ st text-IsFine e in
      let now = online o st in
      let path = resolve_path now.client.current_cwd remote_path in
      let source = o.read_local local_path now.local_disk in
      let done = Upload.upload_file (o.sftp h) source path overwrite now.world in
      let (k, fine, says, same) = upload_reply_lem local_path remote_path path done now replied in
      let (content, read, full, counted) =
        upload_file-Uploaded (o.sftp h) (laws h) path source overwrite now.world k fine in
      subst (Uploaded local_path remote_path) same (
        h,
        content,
        read,
        full,
        says
            ∙ ap (λ n. copied_text (codes "Successfully uploaded ") n local_path remote_path)
                counted,
      )

  -- If `remote_upload_file` replies a text, the parameters named two files, of which the remote one
  -- holds the content of the local one, and the text tells how many bytes those are.
  pub upload_tool-Uploaded :
      (m : Moment) (req : Request) (st : State W V)
      → serve o m (calls remote_upload_file) req st ≡ some (text t, effects, st')
      → (local_path : Bytes) × (remote_path : Bytes) × (overwrite : Bool) × (tool_call req
            remote_upload_file
          ≡ ok (upload_file local_path remote_path overwrite))
        × Uploaded local_path remote_path st'
  unfolding serve tool_call upload_call after_params execute
  upload_tool-Uploaded m req st e =
      let (named, next) = required-Replies o (text t) effects st' m _ _ _ st text-IsFine e in
      let (given, replied) = required-Replies o (text t) effects st' m _ _ _ st text-IsFine next in
      (_, _, _, named ∙ given, serve_upload-Uploaded _ _ _ st replied)

  download_reply_lem :
      (remote_path local_path path : Bytes) (a : Result DownloadError ℕ × V × W) (st : State W V)
      → Says (download_reply remote_path local_path path a st)
      → (k : ℕ) × (a.0 ≡ ok k)
        × (t ≡ copied_text (codes "Successfully downloaded ") k remote_path local_path)
        × (record st { world = a.2; local_disk = a.1 } ≡ st')
  unfolding download_reply
  download_reply_lem remote_path local_path path (ok k, v, w) st e = (k, refl, cc, cc)
  download_reply_lem remote_path local_path path (err why, v, w) st e = absurd cc
  download_reply_lem remote_path local_path path (panic, v, w) st e = absurd cc

  module _ (disk : DiskContents o.disk) where
    -- The remote file held in the first state what the local file holds in the second one.
    abbrev pub Downloaded : Bytes → Bytes → Bool → State W V → State W V → Type 0
    Downloaded remote_path local_path overwrite before after =
        (h : ℕ) × (content : Bytes) × ((laws h).contents
            (resolve_path before.client.current_cwd remote_path) before.world
          ≡ some content)
        × (disk.contents local_path after.local_disk ≡ some content)
        × (t
            ≡ copied_text (codes "Successfully downloaded ") (length content) remote_path
                local_path)
        × ((overwrite ≡ true) ⊎ (disk.contents local_path before.local_disk ≡ none))

    serve_download-Downloaded :
        (remote_path local_path : Bytes) (overwrite : Bool) (st : State W V)
        → Says (serve_download o remote_path local_path overwrite st)
        → Downloaded remote_path local_path overwrite (online o st) st'
    unfolding serve_download
    serve_download-Downloaded remote_path local_path overwrite st e =
        let (h, replied) =
          files-Replies o (text t) effects st' (codes "Download failed: ") _ st text-IsFine e in
        let now = online o st in
        let cwd = now.client.current_cwd in
        let done =
          Download.download_file o.disk (o.sftp h) local_path overwrite cwd remote_path
            now.local_disk now.world in
        let (k, fine, says, same) =
          download_reply_lem remote_path local_path (resolve_path cwd remote_path) done now
            replied in
        let (content, held, arrived, counted, new) =
          download_file-Downloaded o.disk disk local_path (o.sftp h) overwrite (laws h) cwd
            remote_path now.local_disk now.world k fine in
        subst (Downloaded remote_path local_path overwrite now) same (
          h,
          content,
          held,
          arrived,
          says
              ∙ ap (λ n. copied_text (codes "Successfully downloaded ") n remote_path local_path)
                  counted,
          new,
        )

    -- If `remote_download_file` replies a text, the parameters named two files. The local one holds
    -- what the remote one held when the connection was there, and the text tells how many bytes
    -- those are; without `overwrite` there was no local file.
    pub download_tool-Downloaded :
        (m : Moment) (req : Request) (st : State W V)
        → serve o m (calls remote_download_file) req st ≡ some (text t, effects, st')
        → (remote_path : Bytes) × (local_path : Bytes) × (overwrite : Bool) × (tool_call req
              remote_download_file
            ≡ ok (download_file remote_path local_path overwrite))
          × Downloaded remote_path local_path overwrite (online o st) st'
    unfolding serve tool_call download_call after_params execute
    download_tool-Downloaded m req st e =
        let (named, next) = required-Replies o (text t) effects st' m _ _ _ st text-IsFine e in
        let (given, replied) =
          required-Replies o (text t) effects st' m _ _ _ st text-IsFine next in
        (_, _, _, named ∙ given, serve_download-Downloaded _ _ _ st replied)
