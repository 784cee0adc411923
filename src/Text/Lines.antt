-- ===== src/Text/Lines.antt =====
-- Lines with their newlines, and what `join_on` makes of them.
use mcp_ssh_workspace.Common.{
  ℕ, suc, ◌<◌, ◌≡◌, ◌≢◌, refl, sym, ap, ◌∙◌, List, [], ◌∷◌, ◌++◌, append_assoc, Bytes, ◌==◌,
  if◌then◌else◌, length, All, arith, inl, inr, ◌⊎◌,
}
use mcp_ssh_workspace.Text.Search.{newline, join_on, glue_on}
use mcp_ssh_workspace.Text.Search.Laws.{Lacks}

-- Every line with its newline behind it.
abbrev pub unlines : List Bytes → Bytes
unlines [] = []
unlines (l ∷ ls) = l ++ newline ∷ unlines ls

abbrev pub newlines : Bytes → ℕ
newlines [] = 0
newlines (c ∷ s) = if c == newline then suc (newlines s) else newlines s

glue-unlines : (ls : List Bytes) → glue_on newline ls ++ newline ∷ [] ≡ newline ∷ unlines ls
glue-unlines [] = refl
glue-unlines (l ∷ ls) =
    ap (λ r. newline ∷ r)
      (append_assoc l (glue_on newline ls) (newline ∷ []) ∙ ap (λ r. l ++ r) (glue-unlines ls))

join-unlines :
    (l : Bytes) (ls : List Bytes) → join_on newline (l ∷ ls) ++ newline ∷ [] ≡ unlines (l ∷ ls)
unfolding join_on
join-unlines l ls =
    append_assoc l (glue_on newline ls) (newline ∷ []) ∙ ap (λ r. l ++ r) (glue-unlines ls)

pub unlines-append : (ls ms : List Bytes) → unlines (ls ++ ms) ≡ unlines ls ++ unlines ms
unlines-append [] ms = refl
unlines-append (l ∷ ls) ms =
    ap (λ r. l ++ newline ∷ r) (unlines-append ls ms)
    ∙ sym (append_assoc l (newline ∷ unlines ls) (unlines ms))

newlines-line : (l r : Bytes) → Lacks newline l → newlines (l ++ r) ≡ newlines r
newlines-line [] r h = refl
newlines-line (c ∷ l) r (hc, hl) = ground (arith, newlines-line l r hl)

pub newlines-unlines :
    (ls : List Bytes) → All (Lacks newline) ls → newlines (unlines ls) ≡ length ls
newlines-unlines [] h = refl
newlines-unlines (l ∷ ls) (hl, hs) =
    newlines-line l (newline ∷ unlines ls) hl ∙ ap suc (newlines-unlines ls hs)

pub join_some : (ls : List Bytes) → 0 < length ls → join_on newline ls ++ newline ∷ [] ≡ unlines ls
join_some [] h = absurd (omega arith)
join_some (l ∷ ls) h = join-unlines l ls

glue-append :
    (ls : List Bytes) (m : Bytes) (ms : List Bytes)
    → glue_on newline (ls ++ m ∷ ms) ≡ glue_on newline ls ++ newline ∷ join_on newline (m ∷ ms)
unfolding join_on
glue-append [] m ms = refl
glue-append (l ∷ ls) m ms =
    ap (λ r. newline ∷ l ++ r) (glue-append ls m ms)
    ∙ ap (λ r. newline ∷ r)
        (sym (append_assoc l (glue_on newline ls) (newline ∷ join_on newline (m ∷ ms))))

-- Two runs of lines are joined by one newline, if neither is empty.
pub join-append :
    (ls ms : List Bytes)
    → ls ≢ []
    → ms ≢ []
    → join_on newline (ls ++ ms) ≡ join_on newline ls ++ newline ∷ join_on newline ms
join-append [] ms hl hm = absurd (hl refl)
join-append (l ∷ ls) [] hl hm = absurd (hm refl)
join-append (l ∷ ls) (m ∷ ms) hl hm =
    unfold join_on in
    ap (λ r. l ++ r) (glue-append ls m ms)
    ∙ sym (append_assoc l (glue_on newline ls) (newline ∷ join_on newline (m ∷ ms)))

-- Only no line, or one empty line, joins to the empty text.
pub join-eq-nil : (ls : List Bytes) → join_on newline ls ≡ [] → (ls ≡ []) ⊎ (ls ≡ [] ∷ [])
unfolding join_on
join-eq-nil [] h = inl refl
join-eq-nil ([] ∷ []) h = inr refl
join-eq-nil ([] ∷ m ∷ ms) h = absurd (ground arith)
join-eq-nil ((c ∷ l) ∷ ls) h = absurd (ground arith)
