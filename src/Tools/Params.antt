-- ===== src/Tools/Params.antt =====
-- Which of several spellings of a parameter counts.
use mcp_ssh_workspace.Common.{
  ◌≡◌, ◌≢◌, refl, Bool, true, false, Bool-cases, inl, inr, List, [], ◌∷◌, ◌++◌, Bytes, eqb, eqb_iff,
  All,
}
use mcp_ssh_workspace.Common.Int.{ℤ}
use mcp_ssh_workspace.Tools.{
  Request, get_param_string, get_param_int, get_param_bool, get_param_string_slice,
}

module _ (req : Request) where
  -- A key that the arguments lack answers the default, as does a value that is not a string.
  abbrev pub Blank : Bytes → Type 0
  Blank k = req.get_string k [] ≡ []

  abbrev pub Absent : Bytes → Type 0
  Absent k = req.has k ≡ false

  -- A string parameter is the value of the first spelling whose value is not empty.
  pub first_string :
      (early : List Bytes) (k : Bytes) (late : List Bytes)
      → All Blank early
      → req.get_string k [] ≢ []
      → get_param_string req (early ++ k ∷ late) ≡ req.get_string k []
  unfolding get_param_string eqb
  first_string [] k late blank some_text = elim (Bool-cases (eqb (req.get_string k []) [])) [
    | inl e ↦ absurd (some_text ((eqb_iff (req.get_string k []) []).0 e))
    | inr e ↦ rw e refl
  ]
  first_string (j ∷ early) k late (this, blank) some_text =
      rw this (first_string early k late blank some_text)

  -- A parameter of another type is the value of the first spelling that the arguments have, even
  -- when its value has the wrong type and stands for the default.
  pub first_present :
      (early : List Bytes) (k : Bytes) (late : List Bytes)
      → All Absent early
      → req.has k ≡ true
      → ((d : ℤ) → get_param_int req d (early ++ k ∷ late) ≡ req.get_int k d)
        × ((d : Bool) → get_param_bool req d (early ++ k ∷ late) ≡ req.get_bool k d)
        × (get_param_string_slice req (early ++ k ∷ late) ≡ req.get_string_slice k [])
  unfolding get_param_int get_param_bool get_param_string_slice
  first_present [] k late absent here = (λ d. rw here refl, λ d. rw here refl, rw here refl)
  first_present (j ∷ early) k late (this, absent) here =
      let (int, bool, slice) = first_present early k late absent here in
      (λ d. rw this (int d), λ d. rw this (bool d), rw this slice)

  -- With no spelling at all, the default counts.
  pub default_counts :
      (keys : List Bytes)
      → All Blank keys
      → All Absent keys
      → (get_param_string req keys ≡ [])
        × ((d : ℤ) → get_param_int req d keys ≡ d)
        × ((d : Bool) → get_param_bool req d keys ≡ d)
        × (get_param_string_slice req keys ≡ [])
  unfolding get_param_string get_param_int get_param_bool get_param_string_slice eqb
  default_counts [] blank absent = (refl, λ d. refl, λ d. refl, refl)
  default_counts (k ∷ keys) (b, blank) (a, absent) =
      let (string, int, bool, slice) = default_counts keys blank absent in
      (rw b string, λ d. rw a (int d), λ d. rw a (bool d), rw a slice)
