-- ===== src/Remote/Download/Copied.antt =====
-- What `DownloadFile` leaves on the local disk.
use mcp_ssh_workspace.Common.{
  ℕ, ◌≡◌, ◌⊎◌, inl, inr, refl, sym, ap, ◌∙◌, Bool, true, false, Option, none, some, [], Bytes,
  length,
}
use mcp_ssh_workspace.Common.Result.{ok, err-ne-ok, ok-injective}
use mcp_ssh_workspace.Text.Path.{dir}
use mcp_ssh_workspace.Remote.{
  Mode, write_exclusive, Opened, opened, refused, Read, whole, broken, Sftp, resolve_path,
}
use mcp_ssh_workspace.Remote.Writing.{Contents}
use mcp_ssh_workspace.Remote.Download.{
  Disk, copy_result, copy_into, download_mode, local_opened, directory_made, remote_opened,
  download_file,
}

-- What the program relies on of package `os`, as far as a download goes.
pub record DiskContents {V : Type 0} (d : Disk V) : Type 0 where
  pub contents : Bytes → V → Option Bytes
  pub path_of : ℕ → V → Option Bytes
  pub mkdir_keeps : (p q : Bytes) (v : V) → contents q (d.mkdir_all p v).1 ≡ contents q v
  pub open_here :
      (mode : Mode) (p : Bytes) (v v' : V) (h : ℕ)
      → d.open_file mode p v ≡ (opened h, v')
      → (contents p v' ≡ some []) × (path_of h v' ≡ some p)
  -- `O_EXCL` opens no file that exists.
  pub open_new :
      (p : Bytes) (v v' : V) (h : ℕ)
      → d.open_file write_exclusive p v ≡ (opened h, v')
      → contents p v ≡ none
  pub write_here :
      (h : ℕ) (p new : Bytes) (v v' : V)
      → path_of h v ≡ some p
      → contents p v ≡ some []
      → d.write h new v ≡ (none, v')
      → contents p v' ≡ some new
  pub close_keeps : (h : ℕ) (q : Bytes) (v : V) → contents q (d.close h v) ≡ contents q v

module _ {V : Type 0} (d : Disk V) (disk : DiskContents d) (local_path : Bytes) where
  copied :
      (g : ℕ) (text : Bytes) (read_error : Option Bytes) (o : Option Bytes × V) (v : V) (k : ℕ)
      → d.write g text v ≡ o
      → disk.path_of g v ≡ some local_path
      → disk.contents local_path v ≡ some []
      → copy_result d text o.0 read_error ≡ ok k
      → (read_error ≡ none)
        × (disk.contents local_path (d.close g o.1) ≡ some text)
        × (k ≡ length text)
  copied g text read_error (some why, v') v k same here empty done = absurd (err-ne-ok _ k done)
  copied g text (some why) (none, v') v k same here empty done = absurd (err-ne-ok _ k done)
  copied g text none (none, v') v k same here empty done = (
    refl,
    disk.close_keeps g local_path v' ∙ disk.write_here g local_path text v v' here empty same,
    sym (ok-injective _ k done),
  )

  into-Copied :
      (g : ℕ) (r : Read) (v : V) (k : ℕ)
      → disk.path_of g v ≡ some local_path
      → disk.contents local_path v ≡ some []
      → (copy_into d g r v).0 ≡ ok k
      → (text : Bytes) × (r ≡ whole text)
        × (disk.contents local_path (copy_into d g r v).1 ≡ some text)
        × (k ≡ length text)
  unfolding copy_into
  into-Copied g (whole text) v k here empty done =
      let (_, full, counted) = copied g text none (d.write g text v) v k refl here empty done in
      (text, refl, full, counted)
  into-Copied g (broken text why) v k here empty done =
      let (none_of, full, counted) =
        copied g text (some why) (d.write g text v) v k refl here empty done in
      absurd (some-ne-none why none_of)
    where
      some-ne-none : (why : Bytes) → ◌≡◌ {A = Option Bytes} (some why) none → ⊥
      some-ne-none why e = cc

  opens_new :
      (overwrite : Bool) (v v' : V) (g : ℕ)
      → d.open_file (download_mode d overwrite) local_path v ≡ (opened g, v')
      → (overwrite ≡ true) ⊎ (disk.contents local_path v ≡ none)
  opens_new true v v' g e = inl refl
  opens_new false v v' g e = inr (disk.open_new local_path v v' g e)

  module _ {W : Type 0} (s : Sftp W) (overwrite : Bool) where
    abbrev Downloaded : Read → V → V → ℕ → Type 0
    Downloaded r v v' k =
        (text : Bytes) × (r ≡ whole text)
        × (disk.contents local_path v' ≡ some text)
        × (k ≡ length text)
        × ((overwrite ≡ true) ⊎ (disk.contents local_path v ≡ none))

    local-Downloaded :
        (h : ℕ) (o : Opened × V) (v : V) (w : W) (k : ℕ)
        → d.open_file (download_mode d overwrite) local_path v ≡ o
        → (local_opened d s local_path overwrite h o w).0 ≡ ok k
        → Downloaded (s.read_all h w).0 v (local_opened d s local_path overwrite h o w).1 k
    unfolding local_opened
    local-Downloaded h (refused why, v') v w k e done = absurd (err-ne-ok _ k done)
    local-Downloaded h (opened g, v') v w k e done =
        let (empty, here) = disk.open_here _ local_path v v' g e in
        let (text, read, full, counted) = into-Copied g (s.read_all h w).0 v' k here empty done in
        (text, read, full, counted, opens_new overwrite v v' g e)

    made-Downloaded :
        (h : ℕ) (o : Option Bytes × V) (v : V) (w : W) (k : ℕ)
        → d.mkdir_all (dir local_path) v ≡ o
        → (directory_made d s local_path overwrite h o w).0 ≡ ok k
        → Downloaded (s.read_all h w).0 v (directory_made d s local_path overwrite h o w).1 k
    unfolding directory_made
    made-Downloaded h (some why, v') v w k e done = absurd (err-ne-ok _ k done)
    made-Downloaded h (none, v') v w k e done =
        let (text, read, full, counted, new) =
          local-Downloaded h (d.open_file (download_mode d overwrite) local_path v') v' w k refl
            done in
        let kept : disk.contents local_path v' ≡ disk.contents local_path v =
          ap (λ r. disk.contents local_path r.1) (sym e)
          ∙ disk.mkdir_keeps (dir local_path) local_path v in
        (
          text,
          read,
          full,
          counted,
          elim new [ inl asked ↦ inl asked | inr absent ↦ inr (sym kept ∙ absent) ],
        )

    opened-Downloaded :
        (laws : Contents s) (path : Bytes) (o : Opened × W) (v : V) (w : W) (k : ℕ)
        → s.open_read path w ≡ o
        → (remote_opened d s local_path overwrite o v).0 ≡ ok k
        → (text : Bytes) × (laws.contents path w ≡ some text)
          × (disk.contents local_path (remote_opened d s local_path overwrite o v).1 ≡ some text)
          × (k ≡ length text)
          × ((overwrite ≡ true) ⊎ (disk.contents local_path v ≡ none))
    unfolding remote_opened
    opened-Downloaded laws path (refused why, w') v w k e done = absurd (err-ne-ok _ k done)
    opened-Downloaded laws path (opened h, w') v w k e done =
        let (text, read, full, counted, new) =
          made-Downloaded h (d.mkdir_all (dir local_path) v) v w' k refl done in
        (text, laws.read_here path text w w' h e read, full, counted, new)

    -- A download that answers a number of bytes left the local file with the content of the remote
    -- one, and the number is its length; without `overwrite` there was no local file before.
    pub download_file-Downloaded :
        (laws : Contents s) (cwd remote_path : Bytes) (v : V) (w : W) (k : ℕ)
        → (download_file d s local_path overwrite cwd remote_path v w).0 ≡ ok k
        → (text : Bytes) × (laws.contents (resolve_path cwd remote_path) w ≡ some text)
          × (disk.contents local_path (download_file d s local_path overwrite cwd remote_path v w).1
              ≡ some text)
          × (k ≡ length text)
          × ((overwrite ≡ true) ⊎ (disk.contents local_path v ≡ none))
    unfolding download_file
    download_file-Downloaded laws cwd remote_path v w k done =
        let path = resolve_path cwd remote_path in
        opened-Downloaded laws path (s.open_read path w) v w k refl done
