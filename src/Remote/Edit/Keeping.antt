-- ===== src/Remote/Edit/Keeping.antt =====
-- Which files `ReplaceFileContent` leaves as they are.
use mcp_ssh_workspace.Common.{ℕ, ◌≡◌, ◌≢◌, ◌⊎◌, inl, inr, refl, ap, ◌∙◌, Option, none, some, Bytes}
use mcp_ssh_workspace.Common.Result.{Result, ok, err, panic}
use mcp_ssh_workspace.Files.Replace.{EditError}
use mcp_ssh_workspace.Remote.{
  Opened, opened, refused, Read, whole, broken, Sftp, FileError, resolve_path, write_back,
}
use mcp_ssh_workspace.Remote.Writing.{Contents}
use mcp_ssh_workspace.Remote.Replacing.Frame.{write_back_frame}
use mcp_ssh_workspace.Remote.Edit.{
  ReplaceResult, ReplaceError, not_written, ReplaceArgs, edit_of, temp_remote, replace_result,
  after_write_back, after_edit, after_read, replace_opened, replace_file_content,
}

-- An answer that the write-back has been reached.
abbrev pub Reached : Result ReplaceError ReplaceResult → Type 0
Reached a = ((r : ReplaceResult) × (a ≡ ok r)) ⊎ ((e : FileError) × (a ≡ err (not_written e)))

module _ {W : Type 0} (s : Sftp W) (laws : Contents s) (path : Bytes) (now : ℕ)
    (args : ReplaceArgs) where
  back-Reached :
      (new : Bytes) (n : ℕ) (o : Option FileError × W)
      → Reached (after_write_back s path now args new n o).0
  unfolding after_write_back
  back-Reached new n (none, w) = inl (replace_result path new n, refl)
  back-Reached new n (some e, w) = inr (e, refl)

  edit_keeps :
      (o : Result EditError (Bytes × ℕ)) (w : W) (q : Bytes)
      → Reached (after_edit s path now args o w).0
        ⊎ (laws.contents q (after_edit s path now args o w).1 ≡ laws.contents q w)
  unfolding after_edit
  edit_keeps (ok (new, n)) w q =
      inl (back-Reached new n (write_back s (temp_remote path now) path new w))
  edit_keeps (err e) w q = inr refl
  edit_keeps panic w q = inr refl

  read_keeps :
      (o : Read × W) (q : Bytes)
      → Reached (after_read s path now args o).0
        ⊎ (laws.contents q (after_read s path now args o).1 ≡ laws.contents q o.1)
  unfolding after_read
  read_keeps (whole text, w) q = edit_keeps (edit_of args text) w q
  read_keeps (broken text why, w) q = inr refl

  opened_keeps :
      (o : Opened × W) (q : Bytes)
      → Reached (replace_opened s path now args o).0
        ⊎ (laws.contents q (replace_opened s path now args o).1 ≡ laws.contents q o.1)
  unfolding replace_opened
  opened_keeps (refused why, w) q = inr refl
  opened_keeps (opened h, w) q = elim (read_keeps (s.read_all h w) q) [
    | inl reached ↦ inl reached
    | inr kept ↦ inr (laws.close_keeps h q _ ∙ kept ∙ laws.read_keeps h q w)
  ]

-- An answer other than a result or an error of the write-back, that is an error of the opening, the
-- reading or the edit, or a panic of the edit, comes with every file as it was.
pub replace_file_content_keeps :
    {W : Type 0} (s : Sftp W) (laws : Contents s) (cwd : Bytes) (now : ℕ) (remote_path : Bytes)
    (args : ReplaceArgs) (w : W) (q : Bytes)
    → Reached (replace_file_content s cwd now remote_path args w).0
      ⊎ (laws.contents q (replace_file_content s cwd now remote_path args w).1 ≡ laws.contents q w)
unfolding replace_file_content
replace_file_content_keeps s laws cwd now remote_path args w q =
    let path = resolve_path cwd remote_path in
    elim (opened_keeps s laws path now args (s.open_read path w) q) [
      | inl reached ↦ inl reached
      | inr kept ↦ inr (kept ∙ laws.open_read_keeps path q w)
    ]

module _ {W : Type 0} (s : Sftp W) (laws : Contents s) (path : Bytes) (now : ℕ) (args : ReplaceArgs)
    (q : Bytes) (not_temp : temp_remote path now ≢ q) (not_path : path ≢ q) where
  back_after :
      (new : Bytes) (n : ℕ) (o : Option FileError × W)
      → (after_write_back s path now args new n o).1 ≡ o.1
  unfolding after_write_back
  back_after new n (none, w) = refl
  back_after new n (some e, w) = refl

  edit_frame :
      (o : Result EditError (Bytes × ℕ)) (w : W)
      → laws.contents q (after_edit s path now args o w).1 ≡ laws.contents q w
  unfolding after_edit
  edit_frame (ok (new, n)) w =
      let temp = temp_remote path now in
      ap (laws.contents q) (back_after new n (write_back s temp path new w))
      ∙ write_back_frame s laws temp path new q not_temp not_path w
  edit_frame (err e) w = refl
  edit_frame panic w = refl

  read_frame :
      (o : Read × W) → laws.contents q (after_read s path now args o).1 ≡ laws.contents q o.1
  unfolding after_read
  read_frame (whole text, w) = edit_frame (edit_of args text) w
  read_frame (broken text why, w) = refl

  opened_frame :
      (o : Opened × W) → laws.contents q (replace_opened s path now args o).1 ≡ laws.contents q o.1
  unfolding replace_opened
  opened_frame (refused why, w) = refl
  opened_frame (opened h, w) =
      laws.close_keeps h q _ ∙ read_frame (s.read_all h w) ∙ laws.read_keeps h q w

-- Whatever the answer, only the file and the temporary file beside it can change.
pub replace_file_content_frame :
    {W : Type 0} (s : Sftp W) (laws : Contents s) (cwd : Bytes) (now : ℕ) (remote_path : Bytes)
    (args : ReplaceArgs) (w : W) (q : Bytes)
    → temp_remote (resolve_path cwd remote_path) now ≢ q
    → resolve_path cwd remote_path ≢ q
    → laws.contents q (replace_file_content s cwd now remote_path args w).1 ≡ laws.contents q w
unfolding replace_file_content
replace_file_content_frame s laws cwd now remote_path args w q not_temp not_path =
    let path = resolve_path cwd remote_path in
    opened_frame s laws path now args q not_temp not_path (s.open_read path w)
    ∙ laws.open_read_keeps path q w
