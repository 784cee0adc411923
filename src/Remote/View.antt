-- ===== src/Remote/View.antt =====
-- `ViewFile` of internal/sshclient/sftp.go, with the opening and the reading of the file.
pub mod Shown
use mcp_ssh_workspace.Common.{
  ℕ, ◌+◌, ◌-◌, ◌≤◌, ◌<◌, ◌≡◌, refl, sym, ap, ◌∙◌, Bool, Bool-cases, true, false, Option,
  Option-cases, none, some, List, [], ◌∷◌, Bytes, length, arith, inl, inr, ◌⊎◌,
}
use mcp_ssh_workspace.Common.Int.{ℤ}
use mcp_ssh_workspace.Common.Result.{Result, ok, err, panic, err-ne-ok, panic-ne-ok, ok-injective}
use mcp_ssh_workspace.Files.View.{
  ViewResult, ViewError, line_too_long, scan_lines, first_line, last_line, budget, view_text,
}
use mcp_ssh_workspace.Files.View.Slice.{IsSlice, view_text-IsSlice}
use mcp_ssh_workspace.Files.View.Failing.{view_text_scans, view_text_empty}
use mcp_ssh_workspace.Remote.{
  Opened, opened, refused, Read, whole, broken, Stat, stat_of, no_stat, Sftp, resolve_path,
}
use mcp_ssh_workspace.Remote.Writing.{Contents}

pub data ViewFileError : Type 0 where
  open_failed : Bytes → ViewFileError
  stat_failed : Bytes → ViewFileError
  is_a_directory : Bytes → ViewFileError
  read_failed : Bytes → ViewFileError
  not_viewed : ViewError → ViewFileError

-- The lines that were asked for.
pub record ViewArgs : Type 0 where
  pub start_line : ℤ
  pub end_line : ℤ
  pub max_bytes : ℤ

abbrev pub viewed : Result ViewError ViewResult → Result ViewFileError ViewResult
viewed (ok r) = ok r
viewed (err e) = err (not_viewed e)
viewed panic = panic

module _ (path : Bytes) (args : ViewArgs) where
  -- A line that is too long ends the scan before the error of a later read is met.
  abbrev pub scan_broken : Bytes → Option (List Bytes) → Result ViewFileError ViewResult
  scan_broken why none = err (not_viewed line_too_long)
  scan_broken why (some lines) = err (read_failed why)

  unfoldable pub view_read : Read → Result ViewFileError ViewResult
  view_read (whole text) = viewed (view_text path text args.start_line args.end_line args.max_bytes)
  view_read (broken text why) = scan_broken why (scan_lines text)

module _ {W : Type 0} (s : Sftp W) (path : Bytes) (args : ViewArgs) where
  -- Whatever comes of it, the handle is closed.
  unfoldable pub view_handle : ℕ → Stat → W → Result ViewFileError ViewResult × W
  unfolding view_read
  view_handle h (no_stat why) w = (err (stat_failed why), s.close h w)
  view_handle h (stat_of true) w = (err (is_a_directory path), s.close h w)
  view_handle h (stat_of false) w =
      let (r, w') = s.read_all h w in (view_read path args r, s.close h w')

  unfoldable pub view_opened : Opened × W → Result ViewFileError ViewResult × W
  unfolding view_handle
  view_opened (refused why, w) = (err (open_failed why), w)
  view_opened (opened h, w) = view_handle h (s.handle_stat h w) w

-- `ViewFile`, once there is a connection.
unfoldable pub view_file :
    {W : Type 0} → Sftp W → Bytes → Bytes → ViewArgs → W → Result ViewFileError ViewResult × W
unfolding view_opened
view_file s cwd remote_path args w =
    let path = resolve_path cwd remote_path in view_opened s path args (s.open_read path w)
