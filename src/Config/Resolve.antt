-- ===== src/Config/Resolve.antt =====
-- What is explicit wins, and what is missing is filled in.
use mcp_ssh_workspace.Common.{
  zero, suc, ◌≡◌, ◌≢◌, refl, sym, ap, ◌∙◌, false, Bool-cases, inl, inr, Option, some, [], Bytes,
  codes, eqb, eqb_iff, eqb-ne, if◌then◌else◌,
}
use mcp_ssh_workspace.Common.Int.{ℤ, pos, negsuc}
use mathlib.Core.Bool.{false≢true}
use mcp_ssh_workspace.Config.{
  Config, Machine, is_zero, from_ssh_config, default_user, fill_defaults, resolve_host_config,
}

not_empty : (s : Bytes) → s ≢ [] → eqb s [] ≡ false
not_empty s h = elim (Bool-cases (eqb s [])) [ inl e ↦ absurd (h ((eqb_iff s []).0 e)) | inr e ↦ e ]

zero_not : (n : ℤ) → is_zero n ≡ false → n ≢ pos 0
zero_not n h e = absurd (false≢true (sym h ∙ ap is_zero e))

module _ (m : Machine) where
  user_filled : (user : Bytes) → (if eqb user [] then default_user m else user) ≢ []
  user_filled user e = elim (Bool-cases (eqb user [])) [
    | inl blank ↦ elim (Bool-cases (eqb (m.getenv (codes "USER")) [])) [
      | inl no_env ↦ absurd (root_some (rw (blank, no_env) at e))
      | inr env ↦ absurd (eqb-ne (m.getenv (codes "USER")) [] env (rw (blank, env) at e))
    ]
    | inr given ↦ absurd (eqb-ne user [] given (rw given at e))
  ]
    where
      root_some : codes "root" ≢ []
      root_some e = cc

  port_filled : (port : ℤ) → (if is_zero port then pos 22 else port) ≢ pos 0
  port_filled (pos zero) e = absurd (zero_not (pos 22) refl e)
  port_filled (pos (suc n)) e = zero_not (pos (suc n)) refl e
  port_filled (negsuc n) e = zero_not (negsuc n) refl e

  -- After the resolution there always are a user and a port other than 0.
  pub resolve_fills :
      (cfg : Config)
      → ((resolve_host_config m cfg).user ≢ []) × ((resolve_host_config m cfg).port ≢ pos 0)
  unfolding resolve_host_config fill_defaults
  resolve_fills cfg = (
    user_filled (from_ssh_config m m.ssh_config cfg).user,
    port_filled (from_ssh_config m m.ssh_config cfg).port,
  )

  -- The machine with another `~/.ssh/config`.
  abbrev pub configured : (Bytes → Bytes → Option Bytes) → Machine
  configured look_up = record m { ssh_config = some look_up }

  -- If an alias has a `HostName` of another name, nothing else that `~/.ssh/config` says of the alias
  -- matters: for two files with the same `HostName` there that agree on every other host, the
  -- result is the same, whatever user, port and key file they have under the alias.
  pub alias_settings_ignored :
      (cfg : Config) (first second : Bytes → Bytes → Option Bytes) (real : Bytes)
      → first cfg.host (codes "HostName") ≡ some real
      → second cfg.host (codes "HostName") ≡ some real
      → real ≢ []
      → real ≢ cfg.host
      → ((host key : Bytes) → host ≢ cfg.host → first host key ≡ second host key)
      → resolve_host_config (configured first) cfg ≡ resolve_host_config (configured second) cfg
  unfolding resolve_host_config fill_defaults from_ssh_config
  alias_settings_ignored cfg first second real here there some_name other agree =
      rw
        (
          here,
          there,
          not_empty real some_name,
          agree real (codes "User") other,
          agree real (codes "Port") other,
          agree real (codes "IdentityFile") other,
        )
        refl
