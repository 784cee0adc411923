-- ===== src/Remote/View/Shown.antt =====
-- What `ViewFile` shows of a file.
use mcp_ssh_workspace.Common.{
  ℕ, ◌≤◌, ◌≡◌, refl, ap, ◌∙◌, Bool-cases, true, false, Option, none, some, List, [], ◌∷◌, Bytes,
  length, arith, inl, inr,
}
use mcp_ssh_workspace.Common.Int.{ℤ}
use mcp_ssh_workspace.Common.Result.{Result, ok, err, panic, err-ne-ok, panic-ne-ok, ok-injective}
use mcp_ssh_workspace.Files.View.{
  ViewResult, ViewError, scan_lines, first_line, last_line, budget, view_text,
}
use mcp_ssh_workspace.Files.View.Slice.{IsSlice, view_text-IsSlice}
use mcp_ssh_workspace.Files.View.Failing.{view_text_scans, view_text_empty}
use mcp_ssh_workspace.Remote.{
  Opened, opened, refused, Read, whole, broken, Stat, stat_of, no_stat, Sftp, resolve_path,
}
use mcp_ssh_workspace.Remote.Writing.{Contents}
use mcp_ssh_workspace.Remote.View.{
  ViewArgs, viewed, scan_broken, view_read, view_handle, view_opened, view_file,
}

-- What a result shows of the lines of a file.
abbrev pub Shown : List Bytes → ViewArgs → ViewResult → Type 0
Shown [] args r =
    (r.total_lines ≡ 0) × (r.content ≡ []) × (r.is_truncated ≡ false) × (r.end_line ≡ 0)
Shown (l ∷ ls) args r =
    (first_line args.start_line ≤ length (l ∷ ls))
    × IsSlice (l ∷ ls) (first_line args.start_line) (last_line args.end_line (length (l ∷ ls)))
        (budget args.max_bytes) r

text-Shown :
    (path text : Bytes) (args : ViewArgs) (lines : Option (List Bytes)) (r : ViewResult)
    → scan_lines text ≡ lines
    → view_text path text args.start_line args.end_line args.max_bytes ≡ ok r
    → (ls : List Bytes) × (lines ≡ some ls) × Shown ls args r
text-Shown path text args none r e h =
    absurd (view_text_scans path text args.start_line args.end_line args.max_bytes r h e)
text-Shown path text args (some []) r e h =
    ([], refl, view_text_empty path text args.start_line args.end_line args.max_bytes r h e)
text-Shown path text args (some (l ∷ ls)) r e h = (
  l ∷ ls,
  refl,
  view_text-IsSlice path text args.start_line args.end_line args.max_bytes l ls r e h,
)

read-Shown :
    (path : Bytes) (args : ViewArgs) (o : Read) (r : ViewResult)
    → view_read path args o ≡ ok r
    → (text : Bytes) × (ls : List Bytes) × (o ≡ whole text)
      × (scan_lines text ≡ some ls)
      × Shown ls args r
unfolding view_read
read-Shown path args (broken text why) r h = absurd (broken_fails (scan_lines text) h)
  where
    broken_fails : (o : Option (List Bytes)) → scan_broken path args why o ≡ ok r → ⊥
    broken_fails none h = err-ne-ok _ r h
    broken_fails (some ls) h = err-ne-ok _ r h
read-Shown path args (whole text) r h =
    let (ls, e, shown) =
      text-Shown path text args (scan_lines text) r refl
        (viewed_ok (view_text path text args.start_line args.end_line args.max_bytes) h) in
    (text, ls, refl, e, shown)
  where
    viewed_ok : (o : Result ViewError ViewResult) → viewed o ≡ ok r → o ≡ ok r
    viewed_ok (ok q) h = ap ok (ok-injective q r h)
    viewed_ok (err e) h = absurd (err-ne-ok _ r h)
    viewed_ok panic h = absurd (panic-ne-ok r h)

module _ {W : Type 0} (s : Sftp W) (laws : Contents s) (path : Bytes) (args : ViewArgs) where
  handle-Shown :
      (h : ℕ) (stat : Stat) (w w' : W) (r : ViewResult)
      → s.open_read path w ≡ (opened h, w')
      → (view_handle s path args h stat w').0 ≡ ok r
      → (text : Bytes) × (ls : List Bytes) × (laws.contents path w ≡ some text)
        × (scan_lines text ≡ some ls)
        × Shown ls args r
  unfolding view_handle
  handle-Shown h (no_stat why) w w' r e done = absurd (err-ne-ok _ r done)
  handle-Shown h (stat_of true) w w' r e done = absurd (err-ne-ok _ r done)
  handle-Shown h (stat_of false) w w' r e done =
      let (text, ls, read, lines, shown) = read-Shown path args (s.read_all h w').0 r done in
      (text, ls, laws.read_here path text w w' h e read, lines, shown)

  opened-Shown :
      (o : Opened × W) (w : W) (r : ViewResult)
      → s.open_read path w ≡ o
      → (view_opened s path args o).0 ≡ ok r
      → (text : Bytes) × (ls : List Bytes) × (laws.contents path w ≡ some text)
        × (scan_lines text ≡ some ls)
        × Shown ls args r
  unfolding view_opened
  opened-Shown (refused why, w') w r e done = absurd (err-ne-ok _ r done)
  opened-Shown (opened h, w') w r e done = handle-Shown h (s.handle_stat h w') w w' r e done

  handle_keeps :
      (h : ℕ) (stat : Stat) (w : W) (q : Bytes)
      → laws.contents q (view_handle s path args h stat w).1 ≡ laws.contents q w
  unfolding view_handle
  handle_keeps h (no_stat why) w q = laws.close_keeps h q w
  handle_keeps h (stat_of true) w q = laws.close_keeps h q w
  handle_keeps h (stat_of false) w q = laws.close_keeps h q _ ∙ laws.read_keeps h q w

  opened_keeps :
      (o : Opened × W) (q : Bytes)
      → laws.contents q (view_opened s path args o).1 ≡ laws.contents q o.1
  unfolding view_opened
  opened_keeps (refused why, w) q = refl
  opened_keeps (opened h, w) q = handle_keeps h (s.handle_stat h w) w q

module _ {W : Type 0} (s : Sftp W) (laws : Contents s) (cwd remote_path : Bytes) (args : ViewArgs)
    (w : W) where
  -- A view that succeeds shows of the lines of the file what was asked for: of an empty file
  -- nothing, else the slice that the arguments stand for.
  pub view_file-Shown :
      (r : ViewResult)
      → (view_file s cwd remote_path args w).0 ≡ ok r
      → (text : Bytes) × (ls : List Bytes) × (laws.contents (resolve_path cwd remote_path) w
          ≡ some text)
        × (scan_lines text ≡ some ls)
        × Shown ls args r
  unfolding view_file
  view_file-Shown r done =
      let path = resolve_path cwd remote_path in
      opened-Shown s laws path args (s.open_read path w) w r refl done

  -- Whatever a view answers, no file has changed.
  pub view_file_keeps :
      (q : Bytes) → laws.contents q (view_file s cwd remote_path args w).1 ≡ laws.contents q w
  unfolding view_file
  view_file_keeps q =
      let path = resolve_path cwd remote_path in
      opened_keeps s laws path args (s.open_read path w) q ∙ laws.open_read_keeps path q w

last_line-le : (end_line : ℤ) (total : ℕ) → last_line end_line total ≤ total
last_line-le end_line total = ground arith

Shown-budget :
    (ls : List Bytes) (args : ViewArgs) (r : ViewResult)
    → Shown ls args r
    → (length r.content ≤ budget args.max_bytes) × (r.end_line ≤ r.total_lines)
Shown-budget [] args r (total, content, cut, last) =
    (rw content (omega arith), rw last (omega arith))
Shown-budget (l ∷ ls) args r (inside, slice) =
    let asked = last_line-le args.end_line (length (l ∷ ls)) in
    (
      slice.within,
      elim (Bool-cases r.is_truncated) [
        | inl cut ↦
            let (next, rest, at, before, full) = slice.no_room cut in
            omega (arith, asked, slice.total, before)
        | inr all ↦ omega (arith, asked, slice.total, slice.complete all)
      ],
    )

module _ {W : Type 0} (s : Sftp W) (args : ViewArgs) (r : ViewResult) where
  handle_reads :
      (path : Bytes) (h : ℕ) (stat : Stat) (w : W)
      → (view_handle s path args h stat w).0 ≡ ok r
      → (o : Read) × (view_read path args o ≡ ok r)
  unfolding view_handle
  handle_reads path h (no_stat why) w done = absurd (err-ne-ok _ r done)
  handle_reads path h (stat_of true) w done = absurd (err-ne-ok _ r done)
  handle_reads path h (stat_of false) w done = ((s.read_all h w).0, done)

  opened_reads :
      (path : Bytes) (o : Opened × W)
      → (view_opened s path args o).0 ≡ ok r
      → (o : Read) × (view_read path args o ≡ ok r)
  unfolding view_opened
  opened_reads path (refused why, w) done = absurd (err-ne-ok _ r done)
  opened_reads path (opened h, w) done = handle_reads path h (s.handle_stat h w) w done

  -- A view is never longer than the limit that was given, 46080 bytes if none was, and its last line
  -- is a line of the file, or 0.
  pub view_file_bounds :
      (cwd remote_path : Bytes) (w : W)
      → (view_file s cwd remote_path args w).0 ≡ ok r
      → (length r.content ≤ budget args.max_bytes) × (r.end_line ≤ r.total_lines)
  unfolding view_file
  view_file_bounds cwd remote_path w done =
      let path = resolve_path cwd remote_path in
      let (o, read) = opened_reads path (s.open_read path w) done in
      let (text, ls, same, lines, shown) = read-Shown path args o r read in
      Shown-budget ls args r shown
