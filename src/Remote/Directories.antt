-- ===== src/Remote/Directories.antt =====
-- `mkdirAll` of internal/sshclient/sftp.go.
use mcp_ssh_workspace.Common.{
  ◌≡◌, inl, inr, refl, sym, ap, ◌∙◌, Bool, true, false, Bool-cases, Option, none, some, List, [],
  ◌∷◌, Bytes, eqb, if◌then◌else◌, All,
}
use mcp_ssh_workspace.Text.Search.{has_prefix, split_on}
use mcp_ssh_workspace.Text.Path.{slash, clean, join}
use mcp_ssh_workspace.Remote.{
  Sftp, FileError, made_by_other, made, ensure_dir, make_parts, mkdir_all,
}

-- What the program relies on of the SFTP library: a directory that was made is found, and what is
-- there stays there.
pub record Directories {W : Type 0} (s : Sftp W) : Type 0 where
  pub mkdir_makes : (p : Bytes) (w w' : W) → s.mkdir p w ≡ (none, w') → s.stat p w' ≡ some true
  pub mkdir_keeps :
      (p q : Bytes) (w : W) (is_dir : Bool)
      → s.stat q w ≡ some is_dir
      → s.stat q (s.mkdir p w).1 ≡ some is_dir

-- The paths that the loop goes through.
abbrev pub ancestors : Bytes → List Bytes → List Bytes
ancestors current [] = []
ancestors current (part ∷ parts) =
    let skip = ancestors current parts in
    let go_on = ancestors (join current part) parts in
    if eqb part [] then skip else join current part ∷ go_on

abbrev pub start_of : Bytes → Bytes
start_of dir_path = if has_prefix dir_path (slash ∷ []) then slash ∷ [] else []

module _ {W : Type 0} (s : Sftp W) (laws : Directories s) where
  abbrev pub Exists : W → Bytes → Type 0
  Exists w p = (is_dir : Bool) × (s.stat p w ≡ some is_dir)

  abbrev Grows : W → W → Type 0
  Grows w w' = (q : Bytes) → Exists w q → Exists w' q

  made-Exists :
      (p : Bytes) (r : Option Bytes × W) (w : W)
      → s.mkdir p w ≡ r
      → Grows w (made s p r).1 × ((made s p r).0 ≡ none → Exists (made s p r).1 p)
  unfolding made made_by_other
  made-Exists p (none, w') w same = (
    λ q (d, e). (d, ap (λ r. s.stat q r.1) (sym same) ∙ laws.mkdir_keeps p q w d e),
    λ ok. (true, laws.mkdir_makes p w w' same),
  )
  made-Exists p (some why, w') w same =
      (λ q h. other_keeps (s.stat p w') q (grows q h), λ ok. other_exists (s.stat p w') refl ok)
    where
      grows : Grows w w'
      grows q (d, e) = (d, ap (λ r. s.stat q r.1) (sym same) ∙ laws.mkdir_keeps p q w d e)

      other_keeps :
          (found : Option Bool) (q : Bytes)
          → Exists w' q
          → Exists (made_by_other s why found w').1 q
      other_keeps none q h = h
      other_keeps (some d) q h = h

      other_exists :
          (found : Option Bool)
          → s.stat p w' ≡ found
          → (made_by_other s why found w').0 ≡ none
          → Exists (made_by_other s why found w').1 p
      other_exists none e ok = absurd cc
      other_exists (some d) e ok = (d, e)

  ensure-Exists :
      (p : Bytes) (found : Option Bool) (w : W)
      → s.stat p w ≡ found
      → Grows w (ensure_dir s p found w).1
        × ((ensure_dir s p found w).0 ≡ none → Exists (ensure_dir s p found w).1 p)
  unfolding ensure_dir
  ensure-Exists p none w same = made-Exists p (s.mkdir p w) w refl
  ensure-Exists p (some true) w same = (λ q h. h, λ ok. (true, same))
  ensure-Exists p (some false) w same = (λ q h. h, λ ok. absurd cc)

  -- The loop stops at the first error.
  no_error :
      (parts : List Bytes) (current : Bytes) (r : Option FileError) (w : W)
      → (make_parts s parts current r w).0 ≡ none
      → r ≡ none
  unfolding make_parts
  no_error parts current none w ok = refl
  no_error parts current (some e) w ok = absurd cc

  parts_exist :
      (parts : List Bytes) (current : Bytes) (r : Option FileError) (w : W)
      → Grows w (make_parts s parts current r w).1
        × ((make_parts s parts current r w).0 ≡ none
            → All (Exists (make_parts s parts current r w).1) (ancestors current parts))
  unfolding make_parts
  parts_exist parts current (some e) w = (λ q h. h, λ ok. absurd cc)
  parts_exist [] current none w = (λ q h. h, λ ok. tt)
  parts_exist (part ∷ parts) current none w =
      let p = join current part in
      let r = ensure_dir s p (s.stat p w) w in
      let (grow, here) = ensure-Exists p (s.stat p w) w refl in
      let (skip_grow, skip_all) = parts_exist parts current none w in
      let (more_grow, more_all) = parts_exist parts p r.0 r.1 in
      elim (Bool-cases (eqb part [])) [
        | inl e ↦ rw e (skip_grow, skip_all)
        | inr e ↦ rw e (
          λ q h. more_grow q (grow q h),
          λ ok. (more_grow p (here (no_error parts p r.0 r.1 ok)), more_all ok),
        )
      ]

  -- If `mkdir_all` reports no error, the path and every directory above it exist.
  pub mkdir_all-Exists :
      (dir_path : Bytes) (w : W)
      → (mkdir_all s dir_path w).0 ≡ none
      → All
          (Exists (mkdir_all s dir_path w).1)
          (ancestors (start_of dir_path) (split_on slash (clean dir_path)))
  unfolding mkdir_all
  mkdir_all-Exists dir_path w ok =
      (parts_exist (split_on slash (clean dir_path)) (start_of dir_path) none w).1 ok
