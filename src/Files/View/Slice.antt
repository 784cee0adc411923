-- ===== src/Files/View/Slice.antt =====
-- What `ViewFile` shows: the lines that were asked for, numbered, as far as the budget goes.
use mcp_ssh_workspace.Common.{
  ℕ, suc, ◌+◌, ◌-◌, ◌≤◌, ◌<◌, ◌≡◌, refl, sym, ap, ◌∙◌, inl, inr, Bool, true, false, some, List, [],
  ◌∷◌, ◌++◌, Bytes, ltb, if◌then◌else◌, length, take, drop, take-take, drop-take-cons, drop-drop,
  length-append, arith, Bool-cases,
}
use mathlib.Core.Bool.{false≢true}
use mathlib.Core.Path.{subst}
use mcp_ssh_workspace.Common.Int.{ℤ}
use mcp_ssh_workspace.Common.Result.{ok, err, ok-injective, err-ne-ok}
use mcp_ssh_workspace.Files.View.{
  ViewResult, start_beyond, scan_lines, number_line, view_loop, budget, first_line, last_line,
  between, view_lines, view_text,
}

-- The lines with their numbers, from `n` on.
abbrev pub numbered : ℕ → List Bytes → Bytes
numbered n [] = []
numbered n (l ∷ ls) = number_line n l ++ numbered (n + 1) ls

-- The loop shows all lines, or the first `k` of them: then line `m`, the next, has no room.
data Shows (max_bytes end_line n used : ℕ) (ls : List Bytes) (r : Bytes × ℕ × Bool) : Type 0 where
  whole :
      r ≡ (numbered n ls, end_line, false)
      → used + length (numbered n ls) ≤ max_bytes
      → Shows max_bytes end_line n used ls r
  cut :
      (k m : ℕ) (l : Bytes) (rest : List Bytes)
      → drop k ls ≡ l ∷ rest
      → m ≡ n + k
      → r ≡ (numbered n (take k ls), m - 1, true)
      → used + length (numbered n (take k ls)) ≤ max_bytes
      → max_bytes < used + length (numbered n (take k ls)) + length (number_line m l)
      → Shows max_bytes end_line n used ls r

module _ (max_bytes end_line n used : ℕ) (l : Bytes) (ls : List Bytes) where
  line : Bytes
  line = number_line n l

  shown_next :
      (r : Bytes × ℕ × Bool)
      → Shows max_bytes end_line (n + 1) (used + length line) ls r
      → Shows max_bytes end_line n used (l ∷ ls) (line ++ r.0, r.1, r.2)
  unfolding line
  shown_next r (whole e h) =
      whole (rw e) (omega (arith, length-append (number_line n l) (numbered (n + 1) ls)))
  shown_next r (cut k m next rest d at e h full) =
      let len = length-append (number_line n l) (numbered (n + 1) (take k ls)) in
      cut (suc k) m next rest d (omega arith) (rw e) (omega (arith, len)) (omega (arith, len))

  loop_full :
      ltb max_bytes (used + length line) ≡ true
      → view_loop max_bytes end_line n used (l ∷ ls) ≡ ([], n - 1, true)
  unfolding view_loop line
  loop_full e = rw e

  loop_next :
      ltb max_bytes (used + length line) ≡ false
      → let r = view_loop max_bytes end_line (n + 1) (used + length line) ls in
        view_loop max_bytes end_line n used (l ∷ ls) ≡ (line ++ r.0, r.1, r.2)
  unfolding view_loop line
  loop_next e = rw e

view_loop-Shows :
    (max_bytes end_line n used : ℕ) (ls : List Bytes)
    → used ≤ max_bytes
    → Shows max_bytes end_line n used ls (view_loop max_bytes end_line n used ls)
unfolding line
view_loop-Shows max_bytes end_line n used [] room = whole (unfold view_loop in refl) (omega arith)
view_loop-Shows max_bytes end_line n used (l ∷ ls) room =
    elim (Bool-cases (ltb max_bytes (used + length (number_line n l)))) [
      | inl full ↦
          rw (loop_full max_bytes end_line n used l ls full)
            (cut 0 n l ls refl (omega arith) refl (omega arith) (ground arith))
      | inr fits ↦ rw (loop_next max_bytes end_line n used l ls fits) (
          shown_next max_bytes end_line n used l ls _ (
            view_loop-Shows max_bytes end_line (n + 1) (used + length (number_line n l)) ls
              (ground arith)))
    ]

-- What the view of the lines `start` to `end` of a file is, within a budget of bytes.
pub record IsSlice (lines : List Bytes) (start end max_bytes : ℕ) (r : ViewResult) : Type 0 where
  pub total : r.total_lines ≡ length lines
  pub from : r.start_line ≡ start
  -- The content is that of the lines from `start` to the reported last line, with their numbers.
  pub shown : r.content ≡ numbered start (take (r.end_line + 1 - start) (drop (start - 1) lines))
  pub within : length r.content ≤ max_bytes
  -- Without truncation the last line is the one that was asked for.
  pub complete : r.is_truncated ≡ false → r.end_line ≡ end
  -- With it, the next line was asked for too, and has no room.
  pub no_room :
      r.is_truncated ≡ true
      → (next : Bytes) × (rest : List Bytes) × (drop r.end_line lines ≡ next ∷ rest)
        × (r.end_line < end)
        × (max_bytes < length r.content + length (number_line (r.end_line + 1) next))

module _ (path : Bytes) (lines : List Bytes) (start end max_bytes : ℕ) where
  result_of : Bytes × ℕ × Bool → ViewResult
  result_of r = record {
    path = path;
    total_lines = length lines;
    start_line = start;
    end_line = r.1;
    content = r.0;
    is_truncated = r.2;
  }

  result_of-IsSlice :
      (r : Bytes × ℕ × Bool)
      → 0 < start
      → start ≤ length lines
      → Shows max_bytes end start 0 (between start end lines) r
      → IsSlice lines start end max_bytes (result_of r)
  unfolding result_of
  result_of-IsSlice r pos inside (whole e h) = record {
    total = refl;
    from = refl;
    shown = cc;
    within = rw e (omega arith);
    complete = λ t. cc;
    no_room = λ t. absurd (false≢true (cc));
  }
  result_of-IsSlice r pos inside (cut k m next rest at e f h full) =
      let asked = end + 1 - start in
      let (more, here, le) = drop-take-cons k asked (drop (start - 1) lines) next rest at in
      let kept = take-take k asked (drop (start - 1) lines) (omega arith) in
      let count : k ≡ m - 1 + 1 - start = omega arith in
      let place : start - 1 + k ≡ m - 1 = omega arith in
      let back : m - 1 + 1 ≡ m = omega arith in
      rw f (record {
        total = refl;
        from = refl;
        shown = ap (numbered start) (kept ∙ ap (λ i. take i (drop (start - 1) lines)) count);
        within = omega arith;
        complete = λ t. absurd (false≢true (sym t));
        no_room = λ _. (
          next,
          more,
          ap (λ i. drop i lines) (sym place) ∙ sym (drop-drop k (start - 1) lines) ∙ here,
          omega arith,
          rw back (omega arith),
        );
      })

  range-IsSlice :
      (r : ViewResult) (b : Bool)
      → 0 < start
      → ltb (length lines) start ≡ b
      → (if b
          then err (start_beyond start (length lines))
          else ok (result_of (view_loop max_bytes end start 0 (between start end lines))))
        ≡ ok r
      → (start ≤ length lines) × IsSlice lines start end max_bytes r
  range-IsSlice r true pos e h = absurd (err-ne-ok _ r h)
  range-IsSlice r false pos e h =
      let inside : start ≤ length lines = ground arith in
      (
        inside,
        subst (IsSlice lines start end max_bytes) (ok-injective _ r h) (
            result_of-IsSlice _ pos inside
              (view_loop-Shows max_bytes end start 0 (between start end lines) (omega arith))),
      )

first_line_pos : (start_line : ℤ) → 0 < first_line start_line
first_line_pos start_line = ground arith

-- A view that succeeds of a file with lines is the slice that its arguments stand for.
pub view_text-IsSlice :
    (path text : Bytes) (start_line end_line max_bytes : ℤ) (l : Bytes) (ls : List Bytes)
    (r : ViewResult)
    → scan_lines text ≡ some (l ∷ ls)
    → view_text path text start_line end_line max_bytes ≡ ok r
    → (first_line start_line ≤ length (l ∷ ls))
      × IsSlice
          (l ∷ ls)
          (first_line start_line)
          (last_line end_line (length (l ∷ ls)))
          (budget max_bytes)
          r
view_text-IsSlice path text start_line end_line max_bytes l ls r lines h =
    range-IsSlice path (l ∷ ls) (first_line start_line) (last_line end_line (length (l ∷ ls)))
      (budget max_bytes) r (ltb (length (l ∷ ls)) (first_line start_line))
      (first_line_pos start_line) refl
      (unfold view_text result_of in
        ap (λ o. view_lines path o start_line end_line max_bytes) (sym lines) ∙ h)
