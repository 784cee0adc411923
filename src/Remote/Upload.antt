-- ===== src/Remote/Upload.antt =====
-- `UploadFile` of internal/sshclient/sftp.go.
use mcp_ssh_workspace.Common.{
  ℕ, ◌≡◌, refl, sym, ap, ◌∙◌, Bool, Option, none, some, [], Bytes, length, if◌then◌else◌,
}
use mcp_ssh_workspace.Common.Result.{Result, ok, err, err-ne-ok, ok-injective}
use mcp_ssh_workspace.Text.Path.{dir}
use mcp_ssh_workspace.Remote.{
  Mode, write_truncate, write_exclusive, Opened, opened, refused, Read, whole, broken, Sftp,
  FileError, local_failed, open_failed, write_failed, mkdir_all,
}
use mcp_ssh_workspace.Remote.Writing.{Contents}

-- What reading a local file to its end gives, or why it cannot be opened.
pub data Local : Type 0 where
  local_file : Read → Local
  no_file : Bytes → Local

module _ {W : Type 0} (s : Sftp W) where
  -- The bytes that were copied, the error of the write, and that of the read.
  abbrev pub copied : Bytes → Option Bytes → Option Bytes → Result FileError ℕ
  copied content (some why) read_error = err (write_failed why)
  copied content none (some why) = err (write_failed why)
  copied content none none = ok (length content)

  -- `io.Copy` writes what comes before an error of the read, and answers how many bytes it wrote.
  unfoldable pub copy_opened : Read → Opened × W → Result FileError ℕ × W
  copy_opened source (refused why, w) = (err (open_failed why), w)
  copy_opened (whole content) (opened h, w) =
      let (e, w') = s.write h content w in (copied content e none, s.close h w')
  copy_opened (broken content why) (opened h, w) =
      let (e, w') = s.write h content w in (copied content e (some why), s.close h w')

  abbrev pub upload_mode : Bool → Mode
  upload_mode overwrite = if overwrite then write_truncate else write_exclusive

  unfoldable pub upload_into : Bytes → Read → Bool → Option FileError × W → Result FileError ℕ × W
  upload_into path source overwrite (some e, w) = (err e, w)
  upload_into path source overwrite (none, w) =
      copy_opened source (s.open_file (upload_mode overwrite) path w)

  -- The first argument is what opening and reading the local file gives; `path` is the path that was
  -- resolved.
  unfoldable pub upload_file : Local → Bytes → Bool → W → Result FileError ℕ × W
  upload_file (no_file why) path overwrite w = (err (local_failed why), w)
  upload_file (local_file source) path overwrite w =
      upload_into path source overwrite (mkdir_all s (dir path) w)

module _ {W : Type 0} (s : Sftp W) (laws : Contents s) (path : Bytes) where
  abbrev Uploaded : Bytes → Result FileError ℕ × W → ℕ → Type 0
  Uploaded content r k = (laws.contents path r.1 ≡ some content) × (k ≡ length content)

  -- The copy answered a number: the read came to its end.
  abbrev Copies : Read → Result FileError ℕ × W → ℕ → Type 0
  Copies source r k = (content : Bytes) × (source ≡ whole content) × Uploaded content r k

  opened-Copies :
      (source : Read) (mode : Mode) (o : Opened × W) (w : W) (k : ℕ)
      → s.open_file mode path w ≡ o
      → (copy_opened s source o).0 ≡ ok k
      → Copies source (copy_opened s source o) k
  unfolding copy_opened
  opened-Copies source mode (refused why, w') w k e h = absurd (err-ne-ok (open_failed why) k h)
  opened-Copies (broken content why) mode (opened f, w') w k e h =
      absurd (fails (s.write f content w').0 h)
    where
      fails : (e : Option Bytes) → copied s content e (some why) ≡ ok k → ⊥
      fails none e = err-ne-ok (write_failed why) k e
      fails (some first) e = err-ne-ok (write_failed first) k e
  opened-Copies (whole content) mode (opened f, w') w k e h =
      let (empty, here) = laws.open_here mode path w w' f e in
      (content, refl, written (s.write f content w') refl h empty here)
    where
      written :
          (r : Option Bytes × W)
          → s.write f content w' ≡ r
          → copied s content r.0 none ≡ ok k
          → laws.contents path w' ≡ some []
          → laws.path_of f w' ≡ some path
          → (laws.contents path (s.close f r.1) ≡ some content) × (k ≡ length content)
      written (none, w'') same done empty here = (
        laws.close_keeps f path w'' ∙ laws.write_here f path [] content w' w'' here empty same,
        sym (ok-injective (length content) k done),
      )
      written (some why, w'') same done empty here = absurd (err-ne-ok (write_failed why) k done)

  into-Copies :
      (source : Read) (overwrite : Bool) (r : Option FileError × W) (k : ℕ)
      → (upload_into s path source overwrite r).0 ≡ ok k
      → Copies source (upload_into s path source overwrite r) k
  unfolding upload_into
  into-Copies source overwrite (some e, w) k h = absurd (err-ne-ok e k h)
  into-Copies source overwrite (none, w) k h =
      opened-Copies source (upload_mode s overwrite) (s.open_file (upload_mode s overwrite) path w)
        w k refl h

  -- An upload that answers a number of bytes read the local file to its end and left the remote file
  -- with its content, and the number is its length.
  pub upload_file-Uploaded :
      (source : Local) (overwrite : Bool) (w : W) (k : ℕ)
      → (upload_file s source path overwrite w).0 ≡ ok k
      → (content : Bytes) × (source ≡ local_file (whole content))
        × (laws.contents path (upload_file s source path overwrite w).1 ≡ some content)
        × (k ≡ length content)
  unfolding upload_file
  upload_file-Uploaded (no_file why) overwrite w k h = absurd (err-ne-ok (local_failed why) k h)
  upload_file-Uploaded (local_file source) overwrite w k h =
      let (content, all, (full, counted)) =
        into-Copies source overwrite (mkdir_all s (dir path) w) k h in
      (content, ap local_file all, full, counted)
