-- ===== src/Remote/Writing.antt =====
-- What a remote file holds after it was written.
use mcp_ssh_workspace.Common.{
  ℕ, ◌≡◌, ◌≢◌, ◌⊎◌, inl, inr, refl, ◌∙◌, Bool, true, false, Option, Option-cases, none, some, [],
  ◌++◌, Bytes,
}
use mcp_ssh_workspace.Text.Path.{dir}
use mcp_ssh_workspace.Remote.{
  Mode, write_truncate, Opened, opened, refused, whole, Sftp, FileError, already_exists,
  write_error, mkdir_all, write_opened, after_mkdir, write_file,
}

-- What the program relies on of the SFTP library, for a host on which distinct paths are distinct
-- files: `contents` is what a file holds, and `path_of` the file that an open handle writes to.
pub record Contents {W : Type 0} (s : Sftp W) : Type 0 where
  pub contents : Bytes → W → Option Bytes
  pub path_of : ℕ → W → Option Bytes
  -- An open with truncation answers a handle of the file, which is empty then.
  pub open_here :
      (mode : Mode) (p : Bytes) (w w' : W) (h : ℕ)
      → s.open_file mode p w ≡ (opened h, w')
      → (contents p w' ≡ some []) × (path_of h w' ≡ some p)
  pub open_other :
      (mode : Mode) (p q : Bytes) (w : W)
      → p ≢ q
      → contents q (s.open_file mode p w).1 ≡ contents q w
  -- What is read through a handle that was just opened for it is what the file holds.
  pub read_here :
      (p t : Bytes) (w w' : W) (h : ℕ)
      → s.open_read p w ≡ (opened h, w')
      → (s.read_all h w').0 ≡ whole t
      → contents p w ≡ some t
  pub open_read_keeps : (p q : Bytes) (w : W) → contents q (s.open_read p w).1 ≡ contents q w
  pub read_keeps : (h : ℕ) (q : Bytes) (w : W) → contents q (s.read_all h w).1 ≡ contents q w
  -- A write that reports no error has appended all bytes.
  pub write_here :
      (h : ℕ) (p old new : Bytes) (w w' : W)
      → path_of h w ≡ some p
      → contents p w ≡ some old
      → s.write h new w ≡ (none, w')
      → contents p w' ≡ some (old ++ new)
  pub write_other :
      (h : ℕ) (p q new : Bytes) (w : W)
      → path_of h w ≡ some p
      → p ≢ q
      → contents q (s.write h new w).1 ≡ contents q w
  pub close_keeps : (h : ℕ) (q : Bytes) (w : W) → contents q (s.close h w) ≡ contents q w
  pub remove_other : (p q : Bytes) (w : W) → p ≢ q → contents q (s.remove p w) ≡ contents q w
  pub rename_other :
      (p q r : Bytes) (w : W) → p ≢ r → q ≢ r → contents r (s.rename p q w).1 ≡ contents r w
  pub rename_moves :
      (p q : Bytes) (w w' : W) → s.rename p q w ≡ (none, w') → contents q w' ≡ contents p w

module _ {W : Type 0} (s : Sftp W) (laws : Contents s) where
  module _ (path content : Bytes) where
    opened_writes :
        (o : Opened × W) (w : W)
        → s.open_file write_truncate path w ≡ o
        → (write_opened s content o).0 ≡ none
        → laws.contents path (write_opened s content o).1 ≡ some content
    unfolding write_opened
    opened_writes (refused why, w') w e h = absurd cc
    opened_writes (opened f, w') w e h =
        let (empty, here) = laws.open_here write_truncate path w w' f e in
        laws.close_keeps f path _ ∙ written (s.write f content w') refl h empty here
      where
        written :
            (r : Option Bytes × W)
            → s.write f content w' ≡ r
            → write_error r.0 ≡ none
            → laws.contents path w' ≡ some []
            → laws.path_of f w' ≡ some path
            → laws.contents path r.1 ≡ some content
        written (none, w'') same ok empty here =
            laws.write_here f path [] content w' w'' here empty same
        written (some why, w'') same ok empty here = absurd cc

    mkdir_writes :
        (r : Option FileError × W)
        → (after_mkdir s path content r).0 ≡ none
        → laws.contents path (after_mkdir s path content r).1 ≡ some content
    unfolding after_mkdir
    mkdir_writes (some e, w) h = absurd cc
    mkdir_writes (none, w) h = opened_writes (s.open_file write_truncate path w) w refl h

    -- `write_file` that reports no error leaves the file with the content it was given; and it was
    -- asked to overwrite, or the path did not exist before.
    pub write_file_writes :
        (overwrite : Bool) (w : W)
        → (write_file s path content overwrite w).0 ≡ none
        → (laws.contents path (write_file s path content overwrite w).1 ≡ some content)
          × ((overwrite ≡ true) ⊎ (s.stat path w ≡ none))
    unfolding write_file
    write_file_writes true w ok = (mkdir_writes (mkdir_all s (dir path) w) ok, inl refl)
    write_file_writes false w ok = elim (Option-cases (s.stat path w)) [
      | inl e ↦ rw e (mkdir_writes (mkdir_all s (dir path) w) (rw e at ok), inr refl)
      | inr (d, e) ↦ absurd (refused_not path (rw e at ok))
    ]
      where
        refused_not : (p : Bytes) → ◌≡◌ {A = Option FileError} (some (already_exists p)) none → ⊥
        refused_not p e = cc
