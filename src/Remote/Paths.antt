-- ===== src/Remote/Paths.antt =====
-- What `ResolvePath` of internal/sshclient/sftp.go answers.
use mcp_ssh_workspace.Common.{◌≡◌, true, Bool-cases, inl, inr, Bytes}
use mcp_ssh_workspace.Text.Path.{is_abs, join}
use mcp_ssh_workspace.Text.Path.Laws.{
  IsCanonical, clean-IsCanonical, clean_canonical, is_abs_canonical, join-IsCanonical,
}
use mcp_ssh_workspace.Remote.{resolve_path}

resolved_again : (other q : Bytes) → IsCanonical q → resolve_path other q ≡ q
unfolding resolve_path
resolved_again other q h = rw (is_abs_canonical q h) (clean_canonical q h)

module _ (cwd p : Bytes) (cwd_abs : is_abs cwd ≡ true) where
  resolved : IsCanonical (resolve_path cwd p)
  unfolding resolve_path
  resolved = elim (Bool-cases (is_abs p)) [
    | inl e ↦ rw e (clean-IsCanonical p e)
    | inr e ↦
        let inner = join-IsCanonical cwd p cwd_abs in
        rw e (clean-IsCanonical (join cwd p) (is_abs_canonical (join cwd p) inner))
  ]

  -- With an absolute working directory, the path that is resolved is absolute and canonical: a slash
  -- and names between single slashes, none of them empty, `.` or `..`. Resolving it again, against
  -- whatever directory, changes nothing.
  pub resolve_path-IsCanonical :
      IsCanonical (resolve_path cwd p)
      × ((other : Bytes) → resolve_path other (resolve_path cwd p) ≡ resolve_path cwd p)
  resolve_path-IsCanonical = (resolved, λ other. resolved_again other (resolve_path cwd p) resolved)
