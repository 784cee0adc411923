-- ===== src/Remote/Replacing/Frame.antt =====
-- The write-back of `ReplaceFileContent` touches two files.
use mcp_ssh_workspace.Common.{ℕ, ◌≡◌, ◌≢◌, refl, sym, ap, ◌∙◌, Option, none, some, Bytes}
use mcp_ssh_workspace.Remote.{
  read_write_truncate, write_truncate, Opened, opened, refused, Sftp, direct_written, write_direct,
  after_rename, temporary_written, temporary_created, write_back,
}
use mcp_ssh_workspace.Remote.Writing.{Contents}

module _ {W : Type 0} (s : Sftp W) (laws : Contents s) (temp path new_text q : Bytes)
    (not_temp : temp ≢ q) (not_path : path ≢ q) where
  abbrev Same : W → W → Type 0
  Same w w' = laws.contents q w' ≡ laws.contents q w

  after : {A : Type 0} (o : A × W) (w w' : W) (a : A) → o ≡ (a, w') → Same w o.1 → Same w w'
  after o w w' a e kept = ap (λ r. laws.contents q r.1) (sym e) ∙ kept

  direct_same :
      (h : ℕ) (r : Option Bytes × W) → Same r.1 (direct_written s temp path new_text h r).1
  unfolding direct_written
  direct_same h (some why, w) = laws.close_keeps h q w
  direct_same h (none, w) = laws.close_keeps h q _ ∙ laws.remove_other temp q w not_temp

  open_same :
      (o : Opened × W) (w : W)
      → s.open_file write_truncate path w ≡ o
      → Same w (write_direct s temp path new_text o).1
  unfolding write_direct
  open_same (refused why, w') w e = after _ w w' _ e (laws.open_other _ path q w not_path)
  open_same (opened h, w') w e =
      let (empty, here) = laws.open_here write_truncate path w w' h e in
      direct_same h (s.write h new_text w')
      ∙ laws.write_other h path q new_text w' here not_path
      ∙ after _ w w' _ e (laws.open_other _ path q w not_path)

  rename_same : (r : Option Bytes × W) → Same r.1 (after_rename s temp path new_text r).1
  unfolding after_rename
  rename_same (none, w) = refl
  rename_same (some why, w) = open_same (s.open_file write_truncate path w) w refl

  temporary_same :
      (h : ℕ) (r : Option Bytes × W) → Same r.1 (temporary_written s temp path new_text h r).1
  unfolding temporary_written
  temporary_same h (some why, w) =
      laws.remove_other temp q (s.close h w) not_temp ∙ laws.close_keeps h q w
  temporary_same h (none, w) =
      rename_same (s.rename temp path (s.remove path (s.close h w)))
      ∙ laws.rename_other temp path q (s.remove path (s.close h w)) not_temp not_path
      ∙ laws.remove_other path q (s.close h w) not_path
      ∙ laws.close_keeps h q w

  created_same :
      (o : Opened × W) (w : W)
      → s.open_file read_write_truncate temp w ≡ o
      → Same w (temporary_created s temp path new_text o).1
  unfolding temporary_created
  created_same (refused why, w') w e = after _ w w' _ e (laws.open_other _ temp q w not_temp)
  created_same (opened h, w') w e =
      let (empty, here) = laws.open_here read_write_truncate temp w w' h e in
      temporary_same h (s.write h new_text w')
      ∙ laws.write_other h temp q new_text w' here not_temp
      ∙ after _ w w' _ e (laws.open_other _ temp q w not_temp)

  -- Whatever the write-back answers, a third file holds what it held.
  pub write_back_frame :
      (w : W) → laws.contents q (write_back s temp path new_text w).1 ≡ laws.contents q w
  unfolding write_back
  write_back_frame w = created_same (s.open_file read_write_truncate temp w) w refl
