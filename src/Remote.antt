-- ===== src/Remote.antt =====
-- The methods of internal/sshclient/sftp.go, on the state of the remote host.
pub mod Paths
pub mod Directories
pub mod Writing
pub mod Replacing
pub mod Upload
pub mod Download
pub mod Listing
pub mod Answers
pub mod RoundTrip
pub mod View
pub mod Edit
pub mod Memory
pub mod LocalDisk
pub mod Examples
pub mod TripExamples
use mcp_ssh_workspace.Common.{
  ℕ, ◌≡◌, ◌≢◌, Bool, true, false, not, Option, none, some, List, [], ◌∷◌, ◌++◌, Bytes, codes, eqb,
  if◌then◌else◌,
}
use mcp_ssh_workspace.Common.Int.{ℤ}
use mcp_ssh_workspace.Text.Search.{has_prefix, split_on}
use mcp_ssh_workspace.Text.Path.{slash, is_abs, clean, join, dir}

-- The flags of `OpenFile`. All of them create the file; `Create` is the first.
pub data Mode : Type 0 where
  read_write_truncate write_truncate write_exclusive : Mode

-- A file handle, or the error.
pub data Opened : Type 0 where
  opened : ℕ → Opened
  refused : Bytes → Opened

-- What reading a file to its end gives: all of it, or what came before an error, and the error.
pub data Read : Type 0 where
  whole : Bytes → Read
  broken : Bytes → Bytes → Read

-- What `Stat` of a handle answers: whether it is a directory, or the error.
pub data Stat : Type 0 where
  stat_of : Bool → Stat
  no_stat : Bytes → Stat

-- What the library tells of a file in a directory. The mode and the time are texts, as `String` and
-- `Format` give them.
pub record FileInfo : Type 0 where
  pub name : Bytes
  pub is_dir : Bool
  pub size : ℤ
  pub mode : Bytes
  pub mod_time : Bytes

pub data Entries : Type 0 where
  entries : List FileInfo → Entries
  unreadable : Bytes → Entries

-- The calls of the SFTP library, on the state `W` of the remote host. `none` is no error; `stat`
-- answers whether the path is a directory, or `none` for an error.
pub record Sftp (W : Type 0) : Type 0 where
  pub stat : Bytes → W → Option Bool
  pub mkdir : Bytes → W → Option Bytes × W
  pub open_file : Mode → Bytes → W → Opened × W
  -- `Open`, which is for reading
  pub open_read : Bytes → W → Opened × W
  pub handle_stat : ℕ → W → Stat
  pub read_all : ℕ → W → Read × W
  pub read_dir : Bytes → W → Entries
  pub write : ℕ → Bytes → W → Option Bytes × W
  pub close : ℕ → W → W
  pub remove : Bytes → W → W
  pub rename : Bytes → Bytes → W → Option Bytes × W

pub data FileError : Type 0 where
  not_a_directory : Bytes → FileError
  mkdir_failed : Bytes → FileError
  already_exists : Bytes → FileError
  open_failed : Bytes → FileError
  write_failed : Bytes → FileError
  content_failed : Bytes → FileError
  temporary_failed : Bytes → FileError
  overwrite_failed : Bytes → FileError
  local_failed : Bytes → FileError

abbrev pub write_error : Option Bytes → Option FileError
write_error none = none
write_error (some why) = some (write_failed why)

unfoldable pub resolve_path : Bytes → Bytes → Bytes
resolve_path cwd p = if is_abs p then clean p else clean (join cwd p)

module _ {W : Type 0} (s : Sftp W) where
  -- The directory could not be made: it may have been created concurrently.
  unfoldable pub made_by_other : Bytes → Option Bool → W → Option FileError × W
  made_by_other why none w = (some (mkdir_failed why), w)
  made_by_other why (some is_dir) w = (none, w)

  unfoldable pub made : Bytes → Option Bytes × W → Option FileError × W
  unfolding made_by_other
  made current (none, w) = (none, w)
  made current (some why, w) = made_by_other why (s.stat current w) w

  unfoldable pub ensure_dir : Bytes → Option Bool → W → Option FileError × W
  unfolding made
  ensure_dir current none w = made current (s.mkdir current w)
  ensure_dir current (some true) w = (none, w)
  ensure_dir current (some false) w = (some (not_a_directory current), w)

  -- The loop over the names of a path. It stops at the first error.
  unfoldable pub make_parts : List Bytes → Bytes → Option FileError → W → Option FileError × W
  make_parts parts current (some e) w = (some e, w)
  make_parts [] current none w = (none, w)
  make_parts (part ∷ parts) current none w =
      let skip = make_parts parts current none w in
      let current' = join current part in
      let (r, w') = ensure_dir current' (s.stat current' w) w in
      let go_on = make_parts parts current' r w' in if eqb part [] then skip else go_on

  unfoldable pub mkdir_all : Bytes → W → Option FileError × W
  mkdir_all dir_path w =
      let current = if has_prefix dir_path (slash ∷ []) then slash ∷ [] else [] in
      make_parts (split_on slash (clean dir_path)) current none w

  unfoldable pub write_opened : Bytes → Opened × W → Option FileError × W
  write_opened content (refused why, w) = (some (open_failed why), w)
  write_opened content (opened h, w) =
      let (e, w') = s.write h content w in (write_error e, s.close h w')

  unfoldable pub after_mkdir : Bytes → Bytes → Option FileError × W → Option FileError × W
  unfolding write_opened
  after_mkdir path content (some e, w) = (some e, w)
  after_mkdir path content (none, w) = write_opened content (s.open_file write_truncate path w)

  -- `WriteFile`, once there is a connection. `path` is the path that was resolved.
  unfoldable pub write_file : Bytes → Bytes → Bool → W → Option FileError × W
  write_file path content overwrite w =
      let write_it = after_mkdir path content (mkdir_all (dir path) w) in
      if overwrite
      then write_it
      else elim (s.stat path w) [ some is_dir ↦ (some (already_exists path), w) | none ↦ write_it ]

  -- The last part of `ReplaceFileContent` writes the new text to a temporary file and renames it.
  module _ (temp path new_text : Bytes) where
    unfoldable pub direct_written : ℕ → Option Bytes × W → Option FileError × W
    direct_written h (some why, w) = (some (write_failed why), s.close h w)
    direct_written h (none, w) = (none, s.close h (s.remove temp w))

    unfoldable pub write_direct : Opened × W → Option FileError × W
    unfolding direct_written
    write_direct (refused why, w) = (some (overwrite_failed why), w)
    write_direct (opened h, w) = direct_written h (s.write h new_text w)

    unfoldable pub after_rename : Option Bytes × W → Option FileError × W
    unfolding write_direct
    after_rename (none, w) = (none, w)
    after_rename (some why, w) = write_direct (s.open_file write_truncate path w)

    -- The temporary file is closed before its error counts.
    unfoldable pub temporary_written : ℕ → Option Bytes × W → Option FileError × W
    unfolding after_rename
    temporary_written h (some why, w) = (some (content_failed why), s.remove temp (s.close h w))
    temporary_written h (none, w) = after_rename (s.rename temp path (s.remove path (s.close h w)))

    unfoldable pub temporary_created : Opened × W → Option FileError × W
    unfolding temporary_written
    temporary_created (refused why, w) = (some (temporary_failed why), w)
    temporary_created (opened h, w) = temporary_written h (s.write h new_text w)

    unfoldable pub write_back : W → Option FileError × W
    unfolding temporary_created
    write_back w = temporary_created (s.open_file read_write_truncate temp w)
