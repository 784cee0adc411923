-- ===== src/Remote/Replacing.antt =====
-- The write-back of `ReplaceFileContent`.
pub mod Frame
use mcp_ssh_workspace.Common.{
  ℕ, ◌≡◌, ◌≢◌, ◌⊎◌, inl, inr, refl, sym, ap, ◌∙◌, Option, none, some, [], Bytes,
}
use mcp_ssh_workspace.Remote.{
  read_write_truncate, write_truncate, Opened, opened, refused, Sftp, FileError, temporary_failed,
  content_failed, overwrite_failed, write_failed, direct_written, write_direct, after_rename,
  temporary_written, temporary_created, write_back,
}
use mcp_ssh_workspace.Remote.Writing.{Contents}

module _ {W : Type 0} (s : Sftp W) (laws : Contents s) (temp path new_text : Bytes)
    (apart : temp ≢ path) where
  abbrev Holds : Option FileError × W → Type 0
  Holds r = r.0 ≡ none → laws.contents path r.1 ≡ some new_text

  direct-Holds :
      (h : ℕ) (r : Option Bytes × W) (w : W)
      → s.write h new_text w ≡ r
      → laws.contents path w ≡ some []
      → laws.path_of h w ≡ some path
      → Holds (direct_written s temp path new_text h r)
  unfolding direct_written
  direct-Holds h (some why, w') w same empty here ok = absurd cc
  direct-Holds h (none, w') w same empty here ok =
      laws.close_keeps h path (s.remove temp w')
      ∙ laws.remove_other temp path w' apart
      ∙ laws.write_here h path [] new_text w w' here empty same

  open-Holds :
      (o : Opened × W) (w : W)
      → s.open_file write_truncate path w ≡ o
      → Holds (write_direct s temp path new_text o)
  unfolding write_direct
  open-Holds (refused why, w') w same ok = absurd cc
  open-Holds (opened h, w') w same ok =
      let (empty, here) = laws.open_here write_truncate path w w' h same in
      direct-Holds h (s.write h new_text w') w' refl empty here ok

  rename-Holds :
      (r : Option Bytes × W) (w : W)
      → s.rename temp path w ≡ r
      → laws.contents temp w ≡ some new_text
      → Holds (after_rename s temp path new_text r)
  unfolding after_rename
  rename-Holds (none, w') w same full ok = laws.rename_moves temp path w w' same ∙ full
  rename-Holds (some why, w') w same full ok =
      open-Holds (s.open_file write_truncate path w') w' refl ok

  temporary-Holds :
      (h : ℕ) (r : Option Bytes × W) (w : W)
      → s.write h new_text w ≡ r
      → laws.contents temp w ≡ some []
      → laws.path_of h w ≡ some temp
      → Holds (temporary_written s temp path new_text h r)
  unfolding temporary_written
  temporary-Holds h (some why, w') w same empty here ok = absurd cc
  temporary-Holds h (none, w') w same empty here ok =
      rename-Holds (s.rename temp path (s.remove path (s.close h w')))
        (s.remove path (s.close h w')) refl full ok
    where
      full : laws.contents temp (s.remove path (s.close h w')) ≡ some new_text
      full =
          laws.remove_other path temp (s.close h w') (λ e. apart (sym e))
          ∙ laws.close_keeps h temp w'
          ∙ laws.write_here h temp [] new_text w w' here empty same

  created-Holds :
      (o : Opened × W) (w : W)
      → s.open_file read_write_truncate temp w ≡ o
      → Holds (temporary_created s temp path new_text o)
  unfolding temporary_created
  created-Holds (refused why, w') w same ok = absurd cc
  created-Holds (opened h, w') w same ok =
      let (empty, here) = laws.open_here read_write_truncate temp w w' h same in
      temporary-Holds h (s.write h new_text w') w' refl empty here ok

  -- If the write-back reports no error, the file holds the new text, by the rename or by the direct
  -- write that stands in for it.
  pub write_back-Holds :
      (w : W)
      → (write_back s temp path new_text w).0 ≡ none
      → laws.contents path (write_back s temp path new_text w).1 ≡ some new_text
  unfolding write_back
  write_back-Holds w ok = created-Holds (s.open_file read_write_truncate temp w) w refl ok

  -- Errors that come before the original is removed.
  abbrev pub IsEarly : Option FileError → Type 0
  IsEarly e =
      ((why : Bytes) × (e ≡ some (temporary_failed why)))
      ⊎ ((why : Bytes) × (e ≡ some (content_failed why)))

  late_error :
      (r : Option FileError)
      → (r ≡ none)
        ⊎ ((why : Bytes) × ((r ≡ some (overwrite_failed why)) ⊎ (r ≡ some (write_failed why))))
      → IsEarly r
      → ⊥
  late_error r (inl e) (inl (why, f)) = cc
  late_error r (inl e) (inr (why, f)) = cc
  late_error r (inr (v, inl e)) (inl (why, f)) = cc
  late_error r (inr (v, inl e)) (inr (why, f)) = cc
  late_error r (inr (v, inr e)) (inl (why, f)) = cc
  late_error r (inr (v, inr e)) (inr (why, f)) = cc

  direct_late : (o : Opened × W) → IsEarly (write_direct s temp path new_text o).0 → ⊥
  unfolding write_direct
  direct_late (refused why, w) e = late_error _ (inr (why, inl refl)) e
  direct_late (opened h, w) e = written_late h (s.write h new_text w) e
    where
      written_late :
          (h : ℕ) (r : Option Bytes × W) → IsEarly (direct_written s temp path new_text h r).0 → ⊥
      written_late h (some why, w) e = late_error _ (inr (why, inr refl)) e
      written_late h (none, w) e = late_error _ (inl refl) e

  rename_late : (r : Option Bytes × W) → IsEarly (after_rename s temp path new_text r).0 → ⊥
  unfolding after_rename
  rename_late (none, w) e = late_error _ (inl refl) e
  rename_late (some why, w) e = direct_late (s.open_file write_truncate path w) e

  early_keeps :
      (o : Opened × W) (w : W)
      → s.open_file read_write_truncate temp w ≡ o
      → IsEarly (temporary_created s temp path new_text o).0
      → laws.contents path (temporary_created s temp path new_text o).1 ≡ laws.contents path w
  unfolding temporary_created
  early_keeps (refused why, w') w same early =
      ap (λ r. laws.contents path r.1) (sym same)
      ∙ laws.open_other read_write_truncate temp path w apart
  early_keeps (opened h, w') w same early =
      let (empty, here) = laws.open_here read_write_truncate temp w w' h same in
      written_keeps h (s.write h new_text w') w' refl here early
      ∙ ap (λ r. laws.contents path r.1) (sym same)
      ∙ laws.open_other read_write_truncate temp path w apart
    where
      written_keeps :
          (h : ℕ) (r : Option Bytes × W) (w : W)
          → s.write h new_text w ≡ r
          → laws.path_of h w ≡ some temp
          → IsEarly (temporary_written s temp path new_text h r).0
          → laws.contents path (temporary_written s temp path new_text h r).1 ≡ laws.contents path w
      written_keeps h (some why, w') w same here early =
          laws.remove_other temp path (s.close h w') apart
          ∙ laws.close_keeps h path w'
          ∙ ap (λ r. laws.contents path r.1) (sym same)
          ∙ laws.write_other h temp path new_text w here apart
      written_keeps h (none, w') w same here early =
          absurd (rename_late (s.rename temp path (s.remove path (s.close h w'))) early)

  -- If the temporary file cannot be made or written, the original holds what it held.
  pub write_back_keeps :
      (w : W)
      → IsEarly (write_back s temp path new_text w).0
      → laws.contents path (write_back s temp path new_text w).1 ≡ laws.contents path w
  unfolding write_back
  write_back_keeps w early = early_keeps (s.open_file read_write_truncate temp w) w refl early
