-- ===== src/Text/Path/Laws.antt =====
-- Absolute paths that `clean` has been over: the root, or proper names behind slashes.
use mcp_ssh_workspace.Common.{
  ◌≡◌, ◌≢◌, refl, sym, ap, ◌∙◌, inl, inr, true, ◌||◌, List, [], ◌∷◌, ◌++◌, reverse, append-nil,
  Bytes, eqb, eqb_iff, All, All-append, Bool-cases, arith,
}
use mathlib.Core.List.{reverse-cons, reverse-reverse, append_assoc}
use mcp_ssh_workspace.Text.Search.{split_on, join_on}
use mcp_ssh_workspace.Text.Search.Laws.{Lacks, split-Lacks, split-join, split_at_sep}
use mcp_ssh_workspace.Text.Path.{slash, dot, dot_dot, is_abs, parent, enter, walk, clean, join}

-- A name that stands for an entry of a directory.
pub record IsName (s : Bytes) : Type 0 where
  pub some_byte : s ≢ []
  pub not_dot : s ≢ dot
  pub not_dot_dot : s ≢ dot_dot
  pub one_name : Lacks slash s

parent-names : (names : List Bytes) → All IsName names → All IsName (parent true names)
unfolding parent
parent-names [] h = tt
parent-names (n ∷ names) (hn, hs) = ground (arith, eqb_iff n dot_dot, hn.not_dot_dot)

enter-names :
    (names : List Bytes) (part : Bytes)
    → All IsName names
    → Lacks slash part
    → All IsName (enter true names part)
unfolding enter
enter-names names part h lacks = elim (Bool-cases (eqb part [] || eqb part dot)) [
  | inl e ↦ rw e h
  | inr e ↦ rw e (elim (Bool-cases (eqb part dot_dot)) [
    | inl d ↦ rw d (parent-names names h)
    | inr d ↦ rw d (
        (
          record {
            some_byte = λ p. ground (arith, eqb_iff part []);
            not_dot = λ p. ground (arith, eqb_iff part dot);
            not_dot_dot = λ p. ground (arith, eqb_iff part dot_dot);
            one_name = lacks;
          },
          h,
        ))
  ])
]

walk-names :
    (parts names : List Bytes)
    → All (Lacks slash) parts
    → All IsName names
    → All IsName (walk true names parts)
unfolding walk
walk-names [] names _ h = h
walk-names (p ∷ parts) names (hp, hps) h =
    walk-names parts (enter true names p) hps (enter-names names p h hp)

abbrev pub rooted : List Bytes → Bytes
rooted names = slash ∷ join_on slash names

-- An absolute path without empty names, `.` and `..`.
pub record IsCanonical (p : Bytes) : Type 0 where
  pub names : List Bytes
  pub proper : All IsName names
  pub spelled : p ≡ rooted names

All-reverse : (names : List Bytes) → All IsName names → All IsName (reverse names)
All-reverse [] h = tt
All-reverse (n ∷ names) (hn, hs) =
    rw (reverse-cons n names)
      (All-append IsName (reverse names) (n ∷ []) (All-reverse names hs) (hn, tt))

-- `Clean` of an absolute path is canonical.
pub clean-IsCanonical : (p : Bytes) → is_abs p ≡ true → IsCanonical (clean p)
clean-IsCanonical p h = record {
  names = reverse (walk true [] (split_on slash p));
  proper = All-reverse _ (walk-names (split_on slash p) [] (split-Lacks slash p) tt);
  spelled = unfold clean in rw h;
}

enter_name : (names : List Bytes) (n : Bytes) → IsName n → enter true names n ≡ n ∷ names
unfolding enter
enter_name names n h =
    ground
      (arith, eqb_iff n [], eqb_iff n dot, eqb_iff n dot_dot, h.some_byte, h.not_dot, h.not_dot_dot)

walk-cons :
    (n : Bytes) (names acc : List Bytes)
    → IsName n
    → walk true acc (n ∷ names) ≡ walk true (n ∷ acc) names
unfolding walk
walk-cons n names acc h = ap (λ a. walk true a names) (enter_name acc n h)

walk_proper :
    (names acc : List Bytes) → All IsName names → walk true acc names ≡ reverse names ++ acc
walk_proper [] acc _ = unfold walk in refl
walk_proper (n ∷ names) acc (hn, hs) =
    walk-cons n names acc hn
    ∙ walk_proper names (n ∷ acc) hs
    ∙ sym (rw (reverse-cons n names) (append_assoc (reverse names) (n ∷ []) acc))

Lacks-of_names : (names : List Bytes) → All IsName names → All (Lacks slash) names
Lacks-of_names [] h = tt
Lacks-of_names (n ∷ names) (hn, hs) = (hn.one_name, Lacks-of_names names hs)

walk_nil : (acc parts : List Bytes) → walk true acc ([] ∷ parts) ≡ walk true acc parts
unfolding walk enter eqb
walk_nil acc parts = refl

-- The parts of a canonical path, walked again, are its names.
walk-rooted :
    (names : List Bytes)
    → All IsName names
    → walk true [] (split_on slash (rooted names)) ≡ reverse names
unfolding eqb
walk-rooted [] h = unfold split_on join_on walk enter in refl
walk-rooted (n ∷ names) h =
    ap (walk true []) (
      split_at_sep slash slash (join_on slash (n ∷ names)) refl
      ∙ ap (λ r. [] ∷ r)
          (split-join slash n names (Lacks-of_names (n ∷ names) h).0 (Lacks-of_names names h.1)))
    ∙ walk_nil [] (n ∷ names)
    ∙ walk_proper (n ∷ names) [] h
    ∙ append-nil (reverse (n ∷ names))

clean-rooted : (names : List Bytes) → All IsName names → clean (rooted names) ≡ rooted names
unfolding clean
clean-rooted names h = ap rooted (ap reverse (walk-rooted names h) ∙ reverse-reverse names)

-- A canonical path is `Clean`'s own result.
pub clean_canonical : (p : Bytes) → IsCanonical p → clean p ≡ p
clean_canonical p h = rw h.spelled (clean-rooted h.names h.proper)

pub is_abs_canonical : (p : Bytes) → IsCanonical p → is_abs p ≡ true
unfolding is_abs
is_abs_canonical p h = rw h.spelled

is_abs-append : (a b : Bytes) → is_abs a ≡ true → is_abs (a ++ b) ≡ true
unfolding is_abs
is_abs-append [] b h = cc
is_abs-append (c ∷ s) b h = h

-- So is a path joined to an absolute one.
pub join-IsCanonical : (a b : Bytes) → is_abs a ≡ true → IsCanonical (join a b)
join-IsCanonical [] b h = absurd (unfold is_abs in cc)
join-IsCanonical (c ∷ s) b h =
    unfold join in clean-IsCanonical ((c ∷ s) ++ slash ∷ b) (is_abs-append (c ∷ s) (slash ∷ b) h)
