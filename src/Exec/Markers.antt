-- ===== src/Exec/Markers.antt =====
-- `parseCommandMarkers` of internal/sshclient/exec.go.
pub mod RoundTrip
use mcp_ssh_workspace.Common.{
  ℕ, ◌+◌, ◌≡◌, refl, Option, none, some, List, [], ◌∷◌, ◌++◌, Bytes, codes, length, take, drop,
}
use mcp_ssh_workspace.Common.Int.{ℤ, pos}
use mcp_ssh_workspace.Text.Search.{last_index, split_n2}
use mcp_ssh_workspace.Text.Scan.{sscanf_d}
use mcp_ssh_workspace.Text.Trim.{trim_space}

abbrev pub mcp_exit : Bytes
mcp_exit = codes "__MCP_EXIT__"

abbrev pub mcp_cwd : Bytes
mcp_cwd = codes "__MCP_CWD__"

abbrev colon : Bytes
colon = codes ":"

-- What follows the exit marker: the exit code, and the directory if its marker is there.
read_meta : List Bytes → Bytes × ℤ
read_meta [] = ([], pos 0)
read_meta (code ∷ []) = ([], sscanf_d code (pos 0))
read_meta (code ∷ cwd ∷ rest) = (trim_space cwd, sscanf_d code (pos 0))

-- The two sides of the marker that stands at `idx`, if one does.
cut_output : Bytes → Bytes → Bytes → Option ℕ → Bytes × Bytes × ℤ
unfolding read_meta
cut_output output marker_exit marker_cwd none = (output, [], pos 0)
cut_output output marker_exit marker_cwd (some idx) =
    let meta = drop (idx + length marker_exit + 1) output in
    let (new_cwd, exit_code) = read_meta (split_n2 meta (colon ++ marker_cwd ++ colon)) in
    (take idx output, new_cwd, exit_code)

unfoldable pub parse_command_markers : Bytes → Bytes → Bytes → Bytes × Bytes × ℤ
unfolding cut_output
parse_command_markers output marker_exit marker_cwd =
    cut_output output marker_exit marker_cwd (last_index output (marker_exit ++ colon))

reads_markers :
    parse_command_markers (codes "out\n__MCP_EXIT__:3:__MCP_CWD__:/srv\n") mcp_exit mcp_cwd
    ≡ (codes "out\n", codes "/srv", pos 3)
unfolding parse_command_markers last_index split_n2 sscanf_d trim_space
reads_markers = refl
