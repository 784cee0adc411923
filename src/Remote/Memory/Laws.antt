-- ===== src/Remote/Memory/Laws.antt =====
-- What is asked of the SFTP library holds of the host in memory.
use mcp_ssh_workspace.Common.{
  ℕ, ◌≡◌, ◌≢◌, refl, sym, ap, ◌∙◌, Bool, true, Bool-cases, inl, inr, Option, none, some, [], ◌++◌,
  Bytes, length, eqb, eqb_iff, eqb_refl, arith,
}
use mcp_ssh_workspace.Common.Store.{fetch, fetch-alloc_new}
use mcp_ssh_workspace.Common.Dict.{Dict, lookup, insert, erase, lookup-insert, lookup-erase}
use mcp_ssh_workspace.Remote.{
  Mode, read_write_truncate, write_truncate, write_exclusive, Opened, opened, refused, whole,
}
use mcp_ssh_workspace.Remote.Writing.{Contents}
use mcp_ssh_workspace.Remote.Directories.{Directories}
use mcp_ssh_workspace.Remote.Memory.{
  Node, directory, file, Host, is_directory, text_of, put, make, truncated, opening, opening_read,
  found_by, read_of, append_to, writing, renaming, memory,
}

other_insert :
    (p q : Bytes) (n : Node) (m : Dict Node) → p ≢ q → lookup q (insert p n m) ≡ lookup q m
other_insert p q n m apart = simp lookup-insert (ground (arith, eqb_iff p q))

here_insert : (p : Bytes) (n : Node) (m : Dict Node) → lookup p (insert p n m) ≡ some n
here_insert p n m = simp (lookup-insert, eqb_refl)

abbrev handle_of : Opened → ℕ
handle_of (opened h) = h
handle_of (refused why) = 0

pub truncated_here :
    (p : Bytes) (w w' : Host) (h : ℕ)
    → truncated p w ≡ (opened h, w')
    → (text_of (lookup p w'.nodes) ≡ some []) × (fetch h w'.handles ≡ some p)
truncated_here p w w' h e =
    let same : (truncated p w).1 ≡ w' = ap (λ r. r.1) e in
    let here : length w.handles ≡ h = ap (λ r. handle_of r.0) e in
    rw (sym same, sym here)
      (ap text_of (here_insert p (file []) w.nodes), fetch-alloc_new w.handles p)

pub opening_here :
    (mode : Mode) (p : Bytes) (found : Option Node) (w w' : Host) (h : ℕ)
    → opening mode p found w ≡ (opened h, w')
    → (text_of (lookup p w'.nodes) ≡ some []) × (fetch h w'.handles ≡ some p)
opening_here mode p (some directory) w w' h e = absurd cc
opening_here mode p none w w' h e = truncated_here p w w' h e
opening_here write_exclusive p (some (file t)) w w' h e = absurd cc
opening_here read_write_truncate p (some (file t)) w w' h e = truncated_here p w w' h e
opening_here write_truncate p (some (file t)) w w' h e = truncated_here p w w' h e

opening_other :
    (mode : Mode) (p q : Bytes) (found : Option Node) (w : Host)
    → p ≢ q
    → lookup q (opening mode p found w).1.nodes ≡ lookup q w.nodes
opening_other mode p q (some directory) w apart = refl
opening_other mode p q none w apart = other_insert p q (file []) w.nodes apart
opening_other write_exclusive p q (some (file t)) w apart = refl
opening_other read_write_truncate p q (some (file t)) w apart =
    other_insert p q (file []) w.nodes apart
opening_other write_truncate p q (some (file t)) w apart = other_insert p q (file []) w.nodes apart

reading_here :
    (p t : Bytes) (found : Option Node) (w w' : Host) (h : ℕ)
    → lookup p w.nodes ≡ found
    → opening_read p found w ≡ (opened h, w')
    → read_of (text_of (found_by (fetch h w'.handles) w')) ≡ whole t
    → text_of (lookup p w.nodes) ≡ some t
reading_here p t none w w' h is e r = absurd cc
reading_here p t (some n) w w' h is e r =
    let same : (opening_read p (some n) w).1 ≡ w' = ap (λ o. o.1) e in
    let here : length w.handles ≡ h = ap (λ o. handle_of o.0) e in
    let at : fetch h w'.handles ≡ some p = rw (sym same, sym here) (fetch-alloc_new w.handles p) in
    let text : read_of (text_of (lookup p w'.nodes)) ≡ whole t = rw at at r in
    whole_text (text_of (lookup p w.nodes)) (rw (sym same) at text)
  where
    whole_text : (o : Option Bytes) → read_of o ≡ whole t → o ≡ some t
    whole_text none e = absurd cc
    whole_text (some u) e = cc

opening_read_keeps :
    (p : Bytes) (found : Option Node) (w : Host) → (opening_read p found w).1.nodes ≡ w.nodes
opening_read_keeps p none w = refl
opening_read_keeps p (some n) w = refl

pub append_here :
    (p old new : Bytes) (found : Option Bytes) (w w' : Host)
    → found ≡ some old
    → append_to p new found w ≡ (none, w')
    → text_of (lookup p w'.nodes) ≡ some (old ++ new)
append_here p old new none w w' is e = absurd cc
append_here p old new (some t) w w' is e =
    let same : put p (file (t ++ new)) w ≡ w' = ap (λ r. r.1) e in
    rw (sym same) (
      ap text_of (here_insert p (file (t ++ new)) w.nodes)
      ∙ ap (λ o. text_of (some (file (o ++ new)))) (some_of t old is))
  where
    some_of : (a b : Bytes) → ◌≡◌ {A = Option Bytes} (some a) (some b) → a ≡ b
    some_of a b e = cc

append_other :
    (p q new : Bytes) (found : Option Bytes) (w : Host)
    → p ≢ q
    → lookup q (append_to p new found w).1.nodes ≡ lookup q w.nodes
append_other p q new none w apart = refl
append_other p q new (some t) w apart = other_insert p q (file (t ++ new)) w.nodes apart

renaming_moves :
    (p q : Bytes) (from there : Option Node) (w w' : Host)
    → renaming p q from there w ≡ (none, w')
    → lookup q w'.nodes ≡ from
renaming_moves p q none there w w' e = absurd cc
renaming_moves p q (some n) (some there) w w' e = absurd cc
renaming_moves p q (some n) none w w' e =
    let same : record w { nodes = insert q n (erase p w.nodes) } ≡ w' = ap (λ r. r.1) e in
    rw (sym same) (here_insert q n (erase p w.nodes))

renaming_other :
    (p q r : Bytes) (from there : Option Node) (w : Host)
    → p ≢ r
    → q ≢ r
    → lookup r (renaming p q from there w).1.nodes ≡ lookup r w.nodes
renaming_other p q r none there w from_apart to_apart = refl
renaming_other p q r (some n) (some there) w from_apart to_apart = refl
renaming_other p q r (some n) none w from_apart to_apart =
    other_insert q r n (erase p w.nodes) to_apart ∙ simp lookup-erase (ground (arith, eqb_iff p r))

pub memory-Contents : Contents memory
memory-Contents = record {
  contents = λ p w. text_of (lookup p w.nodes);
  path_of = λ h w. fetch h w.handles;
  open_here = λ mode p w w' h. opening_here mode p (lookup p w.nodes) w w' h;
  open_other = λ mode p q w apart. ap text_of (opening_other mode p q (lookup p w.nodes) w apart);
  read_here = λ p t w w' h e. reading_here p t (lookup p w.nodes) w w' h refl e;
  open_read_keeps =
      λ p q w. ap (λ m. text_of (lookup q m)) (opening_read_keeps p (lookup p w.nodes) w);
  read_keeps = λ h q w. refl;
  write_here = λ h p old new w w' here full e.
      append_here p old new (text_of (lookup p w.nodes)) w w' full (rw here at e);
  write_other = λ h p q new w here apart.
      ap (λ o. text_of (lookup q (writing new o w).1.nodes)) here
      ∙ ap text_of (append_other p q new (text_of (lookup p w.nodes)) w apart);
  close_keeps = λ h q w. refl;
  remove_other = λ p q w apart. ap text_of (simp lookup-erase (ground (arith, eqb_iff p q)));
  rename_other = λ p q r w from_apart to_apart.
      ap text_of (renaming_other p q r (lookup p w.nodes) (lookup q w.nodes) w from_apart to_apart);
  rename_moves =
      λ p q w w' e. ap text_of (renaming_moves p q (lookup p w.nodes) (lookup q w.nodes) w w' e);
}

make_makes :
    (p : Bytes) (found : Option Node) (w w' : Host)
    → make p found w ≡ (none, w')
    → is_directory (lookup p w'.nodes) ≡ some true
make_makes p none w w' e =
    let same : put p directory w ≡ w' = ap (λ r. r.1) e in
    rw (sym same) (ap is_directory (here_insert p directory w.nodes))
make_makes p (some n) w w' e = absurd cc

make_keeps :
    (p q : Bytes) (found : Option Node) (w : Host) (is_dir : Bool)
    → lookup p w.nodes ≡ found
    → is_directory (lookup q w.nodes) ≡ some is_dir
    → is_directory (lookup q (make p found w).1.nodes) ≡ some is_dir
make_keeps p q (some n) w is_dir same e = e
make_keeps p q none w is_dir same e = elim (Bool-cases (eqb p q)) [
  | inl h ↦ absurd (
      none_not is_dir
        (sym (ap is_directory (ap (λ k. lookup k w.nodes) (sym ((eqb_iff p q).0 h)) ∙ same)) ∙ e))
  | inr h ↦ ap is_directory (simp (lookup-insert, h) refl) ∙ e
]
  where
    none_not : (d : Bool) → ◌≡◌ {A = Option Bool} none (some d) → ⊥
    none_not d e = cc

pub memory-Directories : Directories memory
memory-Directories = record {
  mkdir_makes = λ p w w' e. make_makes p (lookup p w.nodes) w w' e;
  mkdir_keeps = λ p q w is_dir e. make_keeps p q (lookup p w.nodes) w is_dir refl e;
}
