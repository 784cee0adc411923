-- ===== src/Remote/Edit/Effects.antt =====
-- What `ReplaceFileContent` does to the files of the host.
use mcp_ssh_workspace.Common.{
  ℕ, ◌≡◌, ◌≢◌, refl, sym, ap, ◌∙◌, Option, none, some, ◌++◌, Bytes, codes, length, length-append,
  arith,
}
use mcp_ssh_workspace.Common.Result.{Result, ok, err, panic, err-ne-ok, panic-ne-ok, ok-injective}
use mcp_ssh_workspace.Text.Decimal.{format_int64}
use mcp_ssh_workspace.Files.Replace.{EditError}
use mcp_ssh_workspace.Remote.{
  Opened, opened, refused, Read, whole, broken, Sftp, FileError, resolve_path, write_back,
}
use mcp_ssh_workspace.Remote.Writing.{Contents}
use mcp_ssh_workspace.Remote.Replacing.{write_back-Holds}
use mcp_ssh_workspace.Remote.Edit.{
  ReplaceResult, ReplaceArgs, edit_of, temp_remote, replace_result, after_write_back, after_edit,
  after_read, replace_opened, replace_file_content,
}

-- The temporary file is never the file itself.
temp_remote_apart : (path : Bytes) (now : ℕ) → temp_remote path now ≢ path
unfolding temp_remote
temp_remote_apart path now e =
    let longer = length-append path (codes ".tmp." ++ format_int64 now) in
    let same = ap length e in omega (arith, longer, same)

module _ {W : Type 0} (s : Sftp W) (laws : Contents s) (path : Bytes) (now : ℕ) (args : ReplaceArgs)
    (r : ReplaceResult) where
  -- The text of the file before, the text after, and what the result says of the edit between.
  abbrev Edited : Bytes → Bytes → ℕ → W → Type 0
  Edited old new n w =
      (edit_of args old ≡ ok (new, n))
      × (laws.contents path w ≡ some new)
      × (r ≡ replace_result path new n)

  write_back-Edited :
      (old new : Bytes) (n : ℕ) (w : W) (o : Option FileError × W)
      → edit_of args old ≡ ok (new, n)
      → write_back s (temp_remote path now) path new w ≡ o
      → (after_write_back s path now args new n o).0 ≡ ok r
      → Edited old new n (after_write_back s path now args new n o).1
  unfolding after_write_back
  write_back-Edited old new n w (some e, w') edit e' done = absurd (err-ne-ok _ r done)
  write_back-Edited old new n w (none, w') edit same done = (
    edit,
    ap (λ o. laws.contents path o.1) (sym same)
        ∙ write_back-Holds s laws (temp_remote path now) path new (temp_remote_apart path now) w
            (ap (λ o. o.0) same),
    sym (ok-injective _ r done),
  )

  edit-Edited :
      (old : Bytes) (w : W) (o : Result EditError (Bytes × ℕ))
      → edit_of args old ≡ o
      → (after_edit s path now args o w).0 ≡ ok r
      → (new : Bytes) × (n : ℕ) × Edited old new n (after_edit s path now args o w).1
  unfolding after_edit
  edit-Edited old w (err e) same done = absurd (err-ne-ok _ r done)
  edit-Edited old w panic same done = absurd (panic-ne-ok r done)
  edit-Edited old w (ok (new, n)) same done = (
    new,
    n,
    write_back-Edited old new n w (write_back s (temp_remote path now) path new w) same refl done,
  )

  read-Edited :
      (o : Read × W)
      → (after_read s path now args o).0 ≡ ok r
      → (old : Bytes) × (o.0 ≡ whole old)
        × (new : Bytes) × (n : ℕ) × Edited old new n (after_read s path now args o).1
  unfolding after_read
  read-Edited (broken text why, w) done = absurd (err-ne-ok _ r done)
  read-Edited (whole old, w) done =
      let (new, n, edited) = edit-Edited old w (edit_of args old) refl done in
      (old, refl, new, n, edited)

  opened-Edited :
      (o : Opened × W) (w : W)
      → s.open_read path w ≡ o
      → (replace_opened s path now args o).0 ≡ ok r
      → (old : Bytes) × (new : Bytes) × (n : ℕ) × (laws.contents path w ≡ some old)
        × Edited old new n (replace_opened s path now args o).1
  unfolding replace_opened
  opened-Edited (refused why, w') w same done = absurd (err-ne-ok _ r done)
  opened-Edited (opened h, w') w same done =
      let (old, read, new, n, (edit, held, result)) = read-Edited (s.read_all h w') done in
      (
        old,
        new,
        n,
        laws.read_here path old w w' h same read,
        (edit, laws.close_keeps h path _ ∙ held, result),
      )

-- An answer without an error: the file held a text before, holds the edited text now, and the result
-- tells the path, the number of replacements and the lines of the new text.
pub replace_file_content-Edited :
    {W : Type 0} (s : Sftp W) (laws : Contents s) (cwd : Bytes) (now : ℕ) (remote_path : Bytes)
    (args : ReplaceArgs) (w : W) (r : ReplaceResult)
    → (replace_file_content s cwd now remote_path args w).0 ≡ ok r
    → let path = resolve_path cwd remote_path in
      (old : Bytes) × (new : Bytes) × (n : ℕ) × (laws.contents path w ≡ some old)
      × (edit_of args old ≡ ok (new, n))
      × (laws.contents path (replace_file_content s cwd now remote_path args w).1 ≡ some new)
      × (r ≡ replace_result path new n)
unfolding replace_file_content
replace_file_content-Edited s laws cwd now remote_path args w r done =
    let path = resolve_path cwd remote_path in
    let (old, new, n, before, (edit, after, result)) =
      opened-Edited s laws path now args r (s.open_read path w) w refl done in
    (old, new, n, before, edit, after, result)
