-- ===== src/Remote/Examples.antt =====
-- Runs of the code of internal/sshclient/sftp.go that changes remote files.
use mcp_ssh_workspace.Common.{
  ◌≤◌, length, ◌≡◌, ◌⊎◌, inl, refl, false, [], ◌∷◌, Bytes, codes, eqb, All,
}
use mcp_ssh_workspace.Common.Store.{fetch}
use mcp_ssh_workspace.Common.Dict.{lookup, insert, erase}
use mcp_ssh_workspace.Text.Search.{has_prefix, split_on, join_on}
use mcp_ssh_workspace.Text.Path.{slash, is_abs, clean, join}
use mcp_ssh_workspace.Text.Path.Laws.{IsCanonical}
use mcp_ssh_workspace.Common.Int.{pos}
use mcp_ssh_workspace.Text.Decimal.{format, format_int64}
use mcp_ssh_workspace.Files.View.{ViewResult, scan_lines, number_line, view_text, budget}
use mcp_ssh_workspace.Remote.View.{ViewArgs, view_read, view_handle, view_opened, view_file}
use mcp_ssh_workspace.Remote.View.Shown.{view_file_bounds}
use mcp_ssh_workspace.Remote.Edit.{ReplaceArgs, temp_remote, replace_file_content}
use mcp_ssh_workspace.Remote.Edit.Keeping.{
  Reached, replace_file_content_keeps, replace_file_content_frame,
}
use mcp_ssh_workspace.Remote.{resolve_path, made, ensure_dir, make_parts, mkdir_all, write_back}
use mcp_ssh_workspace.Remote.Paths.{resolve_path-IsCanonical}
use mcp_ssh_workspace.Remote.Replacing.{write_back_keeps}
use mcp_ssh_workspace.Remote.Directories.{Exists, ancestors, start_of, mkdir_all-Exists}
use mcp_ssh_workspace.Remote.Memory.{directory, file, Host, memory}
use mcp_ssh_workspace.Remote.Memory.Laws.{memory-Contents, memory-Directories}

abbrev host : Host
host = record {
  nodes = (codes "/a", directory) ∷ (codes "/a/f", file (codes "old")) ∷ [];
  handles = [];
}

resolve_path-IsCanonical_example :
    IsCanonical (resolve_path (codes "/a/b") (codes "../c//d"))
    × ((other : Bytes)
        → resolve_path other (resolve_path (codes "/a/b") (codes "../c//d"))
          ≡ resolve_path (codes "/a/b") (codes "../c//d"))
unfolding is_abs
resolve_path-IsCanonical_example = resolve_path-IsCanonical (codes "/a/b") (codes "../c//d") refl

resolve_runs : resolve_path (codes "/a/b") (codes "../c//d") ≡ codes "/a/c/d"
unfolding resolve_path is_abs clean join
resolve_runs = refl

-- The temporary name is that of a directory.
write_back_keeps_example :
    memory-Contents.contents
      (codes "/a/f")
      (write_back memory (codes "/a") (codes "/a/f") (codes "new") host).1
    ≡ memory-Contents.contents (codes "/a/f") host
unfolding write_back lookup erase insert fetch eqb
write_back_keeps_example =
    write_back_keeps memory memory-Contents (codes "/a") (codes "/a/f") (codes "new") (λ e. cc) host
      (inl (codes "directory", refl))

mkdir_all-Exists_example :
    All
      (Exists memory memory-Directories (mkdir_all memory (codes "/a/x") host).1)
      (ancestors (start_of (codes "/a/x")) (split_on slash (clean (codes "/a/x"))))
unfolding mkdir_all make_parts ensure_dir made clean join split_on join_on has_prefix lookup insert
    erase fetch eqb is_abs
mkdir_all-Exists_example = mkdir_all-Exists memory memory-Directories (codes "/a/x") host refl

abbrev edit_args : ReplaceArgs
edit_args = record {
  target_content = codes "old";
  replacement_content = codes "new";
  start_line = pos 0;
  end_line = pos 0;
  allow_multiple = false;
}

replace_file_content_keeps_example :
    Reached (replace_file_content memory (codes "/a") 7 (codes "x") edit_args host).0
    ⊎ (memory-Contents.contents
          (codes "/a/f")
          (replace_file_content memory (codes "/a") 7 (codes "x") edit_args host).1
        ≡ memory-Contents.contents (codes "/a/f") host)
replace_file_content_keeps_example =
    replace_file_content_keeps memory memory-Contents (codes "/a") 7 (codes "x") edit_args host
      (codes "/a/f")

replace_file_content_frame_example :
    memory-Contents.contents
      (codes "/a")
      (replace_file_content memory (codes "/a") 7 (codes "f") edit_args host).1
    ≡ memory-Contents.contents (codes "/a") host
unfolding temp_remote resolve_path is_abs clean join format_int64 format
replace_file_content_frame_example =
    replace_file_content_frame memory memory-Contents (codes "/a") 7 (codes "f") edit_args host
      (codes "/a") (λ e. cc) (λ e. cc)

abbrev view_args : ViewArgs
view_args = record { start_line = pos 1; end_line = pos 0; max_bytes = pos 0 }

abbrev shown_result : ViewResult
shown_result = record {
  path = codes "/a/f";
  total_lines = 1;
  start_line = 1;
  end_line = 1;
  content = codes "     1 | old\n";
  is_truncated = false;
}

view_file_bounds_example :
    (length shown_result.content ≤ budget view_args.max_bytes)
    × (shown_result.end_line ≤ shown_result.total_lines)
unfolding view_file view_opened view_handle view_read view_text scan_lines number_line resolve_path
    is_abs clean join lookup fetch eqb format
view_file_bounds_example =
    view_file_bounds memory view_args shown_result (codes "/a") (codes "f") host refl
