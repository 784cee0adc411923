-- ===== src/Files/Examples.antt =====
-- Runs of the code of internal/sshclient/sftp.go that works on the text of a file.
use mcp_ssh_workspace.Common.{
  ◌-◌, ◌<◌, ◌≤◌, ◌≡◌, ◌↔◌, refl, true, false, ◌∷◌, ◌++◌, Bytes, codes, length,
}
use mcp_ssh_workspace.Common.Int.{pos}
use mcp_ssh_workspace.Common.Result.{ok, panic}
use mcp_ssh_workspace.Text.Search.{newline, split_on, join_on}
use mcp_ssh_workspace.Text.Replace.{count, replace}
use mcp_ssh_workspace.Files.Replace.{
  before_of, after_of, edit_chunk, surround, edit_lines, edit_text,
}
use mcp_ssh_workspace.Files.Replace.Whole.{IsEdit}
use mcp_ssh_workspace.Files.Replace.Full.{edit_all_lines}
use mcp_ssh_workspace.Files.Replace.Lines.{range-IsEdit, loses_newline, edit_range_panics}

abbrev some_text : Bytes
some_text = codes "a\nb\nb\n"

range-IsEdit_example :
    (t : Bytes) × (some_text ≡ codes "a\n" ++ (codes "b" ++ codes "\nb\n"))
    × (codes "a\ncc\nb\n" ≡ codes "a\n" ++ (t ++ codes "\nb\n"))
    × IsEdit (codes "b") (codes "b") (codes "cc") false (t, 1)
unfolding edit_text edit_lines edit_chunk surround before_of after_of count replace split_on join_on
range-IsEdit_example =
    range-IsEdit some_text (codes "b") (codes "cc") (pos 2) (pos 2) false refl
      (codes "a\ncc\nb\n", 1) (λ e. cc) refl (λ e. cc)

loses_newline_example :
    (t : Bytes) × (codes "\nb\nb" ≡ newline ∷ (codes "b" ++ codes "\nb"))
    × (codes "cc\nb" ≡ t ++ codes "\nb")
    × IsEdit (codes "b") (codes "b") (codes "cc") false (t, 1)
unfolding edit_text edit_lines edit_chunk surround before_of after_of count replace split_on join_on
loses_newline_example =
    loses_newline (codes "\nb\nb") (codes "b") (codes "cc") (pos 2) (pos 2) false refl
      (codes "cc\nb", 1) (λ e. cc) refl refl

edit_range_panics_example :
    edit_text some_text (codes "b") (codes "cc") (pos 3) (pos 1) false ≡ panic
    ↔ (3 ≤ length (split_on newline some_text)) × (1 < 3 - 1)
unfolding split_on
edit_range_panics_example =
    edit_range_panics some_text (codes "b") (codes "cc") (pos 3) (pos 1) false refl

edit_all_lines_example :
    edit_text some_text (codes "b") (codes "cc") (pos 1) (pos 9) true ≡ ok (codes "a\ncc\ncc\n", 2)
    ↔ edit_text some_text (codes "b") (codes "cc") (pos 0) (pos 0) true
      ≡ ok (codes "a\ncc\ncc\n", 2)
unfolding split_on
edit_all_lines_example =
    edit_all_lines some_text (codes "b") (codes "cc") true (pos 1) (pos 9) refl refl
      (codes "a\ncc\ncc\n", 2)
