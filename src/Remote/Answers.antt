-- ===== src/Remote/Answers.antt =====
-- Which methods of internal/sshclient/sftp.go can panic.
use mcp_ssh_workspace.Common.{
  ℕ, ◌≡◌, ◌≢◌, refl, sym, Bool, true, false, Option, none, some, List, Bytes,
}
use mcp_ssh_workspace.Common.Result.{Result, ok, err, panic, panic-ne-ok, panic-ne-err}
use mcp_ssh_workspace.Text.Path.{dir}
use mcp_ssh_workspace.Files.View.{ViewResult, ViewError, scan_lines, view_text}
use mcp_ssh_workspace.Files.View.Failing.{view_text_answers}
use mcp_ssh_workspace.Files.Replace.{EditError}
use mcp_ssh_workspace.Remote.{
  Opened, opened, refused, Read, whole, broken, Stat, stat_of, no_stat, Entries, entries,
  unreadable, Sftp, FileError, mkdir_all, resolve_path, write_back,
}
use mcp_ssh_workspace.Remote.View.{
  ViewArgs, viewed, scan_broken, view_read, view_handle, view_opened, view_file,
}
use mcp_ssh_workspace.Remote.Listing.{listed, list_dir}
use mcp_ssh_workspace.Remote.Upload.{
  Local, local_file, no_file, copied, copy_opened, upload_into, upload_mode, upload_file,
}
use mcp_ssh_workspace.Remote.Download.{
  Disk, copy_result, copy_into, download_mode, local_opened, directory_made, remote_opened,
  download_file,
}
use mcp_ssh_workspace.Remote.Edit.{
  ReplaceArgs, edit_of, temp_remote, after_write_back, after_edit, after_read, replace_opened,
  replace_file_content,
}

module _ {W : Type 0} (s : Sftp W) where
  module _ (path : Bytes) (args : ViewArgs) where
    read_answers : (r : Read) → view_read path args r ≢ panic
    unfolding view_read
    read_answers (whole text) h =
        viewed_answers (view_text path text args.start_line args.end_line args.max_bytes)
          (view_text_answers path text args.start_line args.end_line args.max_bytes) h
      where
        viewed_answers : (r : Result ViewError ViewResult) → r ≢ panic → viewed r ≢ panic
        viewed_answers (ok v) n e = panic-ne-ok _ (sym e)
        viewed_answers (err v) n e = panic-ne-err _ (sym e)
        viewed_answers panic n e = n refl
    read_answers (broken text why) h = broken_answers (scan_lines text) h
      where
        broken_answers : (o : Option (List Bytes)) → scan_broken path args why o ≢ panic
        broken_answers none e = panic-ne-err _ (sym e)
        broken_answers (some ls) e = panic-ne-err _ (sym e)

    handle_answers : (h : ℕ) (st : Stat) (w : W) → (view_handle s path args h st w).0 ≢ panic
    unfolding view_handle
    handle_answers h (no_stat why) w e = panic-ne-err _ (sym e)
    handle_answers h (stat_of true) w e = panic-ne-err _ (sym e)
    handle_answers h (stat_of false) w e = read_answers (s.read_all h w).0 e

    opened_answers : (o : Opened × W) → (view_opened s path args o).0 ≢ panic
    unfolding view_opened
    opened_answers (refused why, w) e = panic-ne-err _ (sym e)
    opened_answers (opened h, w) e = handle_answers h (s.handle_stat h w) w e

  pub view_file_answers :
      (cwd p : Bytes) (args : ViewArgs) (w : W) → (view_file s cwd p args w).0 ≢ panic
  unfolding view_file
  view_file_answers cwd p args w =
      opened_answers (resolve_path cwd p) args (s.open_read (resolve_path cwd p) w)

  listed_answers : (path : Bytes) (es : Entries) → listed path es ≢ panic
  unfolding listed
  listed_answers path (entries es) e = panic-ne-ok _ (sym e)
  listed_answers path (unreadable why) e = panic-ne-err _ (sym e)

  pub list_dir_answers : (cwd p : Bytes) (w : W) → list_dir s cwd p w ≢ panic
  unfolding list_dir
  list_dir_answers cwd p w = listed_answers (resolve_path cwd p) (s.read_dir (resolve_path cwd p) w)

  copied_answers :
      (content : Bytes) (e read_error : Option Bytes) → copied s content e read_error ≢ panic
  copied_answers content (some why) r h = panic-ne-err _ (sym h)
  copied_answers content none (some why) h = panic-ne-err _ (sym h)
  copied_answers content none none h = panic-ne-ok _ (sym h)

  copy_answers : (source : Read) (o : Opened × W) → (copy_opened s source o).0 ≢ panic
  unfolding copy_opened
  copy_answers source (refused why, w) e = panic-ne-err _ (sym e)
  copy_answers (whole content) (opened h, w) e =
      copied_answers content (s.write h content w).0 none e
  copy_answers (broken content why) (opened h, w) e =
      copied_answers content (s.write h content w).0 (some why) e

  into_answers :
      (path : Bytes) (source : Read) (overwrite : Bool) (r : Option FileError × W)
      → (upload_into s path source overwrite r).0 ≢ panic
  unfolding upload_into
  into_answers path source overwrite (some e, w) h = panic-ne-err _ (sym h)
  into_answers path source overwrite (none, w) h =
      copy_answers source (s.open_file (upload_mode s overwrite) path w) h

  pub upload_file_answers :
      (source : Local) (path : Bytes) (overwrite : Bool) (w : W)
      → (upload_file s source path overwrite w).0 ≢ panic
  unfolding upload_file
  upload_file_answers (no_file why) path overwrite w e = panic-ne-err _ (sym e)
  upload_file_answers (local_file content) path overwrite w e =
      into_answers path content overwrite (mkdir_all s (dir path) w) e

  module _ {V : Type 0} (d : Disk V) (local_path : Bytes) (overwrite : Bool) where
    result_answers :
        (text : Bytes) (e read_error : Option Bytes) → copy_result d text e read_error ≢ panic
    result_answers text (some why) r h = panic-ne-err _ (sym h)
    result_answers text none (some why) h = panic-ne-err _ (sym h)
    result_answers text none none h = panic-ne-ok _ (sym h)

    copy_into_answers : (g : ℕ) (r : Read) (v : V) → (copy_into d g r v).0 ≢ panic
    unfolding copy_into
    copy_into_answers g (whole text) v = result_answers text (d.write g text v).0 none
    copy_into_answers g (broken text why) v = result_answers text (d.write g text v).0 (some why)

    local_answers :
        (h : ℕ) (o : Opened × V) (w : W) → (local_opened d s local_path overwrite h o w).0 ≢ panic
    unfolding local_opened
    local_answers h (refused why, v) w e = panic-ne-err _ (sym e)
    local_answers h (opened g, v) w e = copy_into_answers g (s.read_all h w).0 v e

    made_answers :
        (h : ℕ) (o : Option Bytes × V) (w : W)
        → (directory_made d s local_path overwrite h o w).0 ≢ panic
    unfolding directory_made
    made_answers h (some why, v) w e = panic-ne-err _ (sym e)
    made_answers h (none, v) w e =
        local_answers h (d.open_file (download_mode d overwrite) local_path v) w e

    remote_answers :
        (o : Opened × W) (v : V) → (remote_opened d s local_path overwrite o v).0 ≢ panic
    unfolding remote_opened
    remote_answers (refused why, w) v e = panic-ne-err _ (sym e)
    remote_answers (opened h, w) v e = made_answers h (d.mkdir_all (dir local_path) v) w e

    pub download_file_answers :
        (cwd p : Bytes) (v : V) (w : W)
        → (download_file d s local_path overwrite cwd p v w).0 ≢ panic
    unfolding download_file
    download_file_answers cwd p v w = remote_answers (s.open_read (resolve_path cwd p) w) v

  module _ (path : Bytes) (now : ℕ) (args : ReplaceArgs) where
    back_answers :
        (new : Bytes) (n : ℕ) (o : Option FileError × W)
        → (after_write_back s path now args new n o).0 ≢ panic
    unfolding after_write_back
    back_answers new n (none, w) e = panic-ne-ok _ (sym e)
    back_answers new n (some why, w) e = panic-ne-err _ (sym e)

    edit_panics :
        (o : Result EditError (Bytes × ℕ)) (w : W)
        → (after_edit s path now args o w).0 ≡ panic
        → o ≡ panic
    unfolding after_edit
    edit_panics (ok (new, n)) w e =
        absurd (back_answers new n (write_back s (temp_remote path now) path new w) e)
    edit_panics (err why) w e = absurd (panic-ne-err _ (sym e))
    edit_panics panic w e = refl

    read_panics :
        (o : Read × W)
        → (after_read s path now args o).0 ≡ panic
        → (old : Bytes) × (o.0 ≡ whole old) × (edit_of args old ≡ panic)
    unfolding after_read
    read_panics (whole old, w) e = (old, refl, edit_panics (edit_of args old) w e)
    read_panics (broken text why, w) e = absurd (panic-ne-err _ (sym e))

    replace_panics :
        (o : Opened × W)
        → (replace_opened s path now args o).0 ≡ panic
        → (old : Bytes) × (edit_of args old ≡ panic)
    unfolding replace_opened
    replace_panics (refused why, w) e = absurd (panic-ne-err _ (sym e))
    replace_panics (opened h, w) e =
        let (old, read, why) = read_panics (s.read_all h w) e in (old, why)

  -- Replacing panics only because the edit of some text panics.
  pub replace_file_content_panics :
      (cwd : Bytes) (now : ℕ) (p : Bytes) (args : ReplaceArgs) (w : W)
      → (replace_file_content s cwd now p args w).0 ≡ panic
      → (old : Bytes) × (edit_of args old ≡ panic)
  unfolding replace_file_content
  replace_file_content_panics cwd now p args w =
      replace_panics (resolve_path cwd p) now args (s.open_read (resolve_path cwd p) w)
