-- ===== src/Exec/Wrap/Safety.antt =====
-- What `WrapCommand` hands to the login shell, and the script that comes out behind it.
use mcp_ssh_workspace.Common.{
  ℕ, ◌≡◌, ◌&&◌, ltb, refl, ap, ◌∙◌, Bool, true, some, [], ◌∷◌, ◌++◌, append_assoc, Bytes, IsByte,
  codes, eqb, All, All-append, Bool-cases, inl, inr, arith,
}
use mcp_ssh_workspace.Text.Quote.{quote, quote-IsByte, IsPlain, quote_plain}
use mcp_ssh_workspace.Text.Base64.{encode, decode}
use mcp_ssh_workspace.Text.Base64.RoundTrip.{decode-encode, IsBase64, encode-IsBase64}
use mcp_ssh_workspace.Exec.Wrap.{
  askpass_file, askpass_head, askpass_tail, footer, sudo_setup, cd_line, setup, raw_script,
  wrap_command,
}

all_bytes : Bytes → Bool
all_bytes [] = true
all_bytes (c ∷ s) = ltb c 256 && all_bytes s

-- A literal in front.
literal : (s t : Bytes) → all_bytes s ≡ true → All IsByte t → All IsByte (s ++ t)
unfolding all_bytes
literal [] t h ht = ht
literal (c ∷ s) t h ht = ground (arith, literal s t)

all_bytes_sound : (s : Bytes) → all_bytes s ≡ true → All IsByte s
unfolding all_bytes
all_bytes_sound [] h = tt
all_bytes_sound (c ∷ s) h = ground (arith, all_bytes_sound s)

sudo_setup-IsByte : (pw : Bytes) → All IsByte pw → All IsByte (sudo_setup pw)
unfolding all_bytes
sudo_setup-IsByte pw h = literal askpass_file (askpass_head ++ (pw ++ askpass_tail)) refl (
    literal askpass_head (pw ++ askpass_tail) refl
      (All-append IsByte pw askpass_tail h (all_bytes_sound askpass_tail refl)))

setup-IsByte : (pw : Bytes) → All IsByte pw → All IsByte (setup pw)
setup-IsByte pw h = elim (Bool-cases (eqb pw [])) [
  | inl e ↦ rw e tt
  | inr e ↦ rw e (sudo_setup-IsByte pw h)
]

abbrev or_root : Bytes
or_root = codes " 2>/dev/null || cd /\n"

module _ (is_print : ℕ → Bool) (cmd active_cwd sudo_password : Bytes) where
  raw_script-IsByte :
      All IsByte cmd
      → All IsByte active_cwd
      → All IsByte sudo_password
      → All IsByte (raw_script is_print cmd active_cwd sudo_password)
  raw_script-IsByte hc hd hp =
      unfold raw_script all_bytes in
      All-append IsByte (cd_line is_print active_cwd) (setup sudo_password ++ (cmd ++ footer))
        (literal (codes "cd ") (quote is_print active_cwd ++ or_root) refl (
          All-append IsByte (quote is_print active_cwd) or_root
            (quote-IsByte is_print active_cwd hd) (all_bytes_sound or_root refl)))
        (All-append IsByte (setup sudo_password) (cmd ++ footer) (setup-IsByte sudo_password hp)
          (All-append IsByte cmd footer hc (all_bytes_sound footer refl)))

  -- The login shell sees one command, whose only part that depends on the input is a word of
  -- Base64 letters between single quotes; and that word decodes to the script.
  pub wrap-decode :
      All IsByte cmd
      → All IsByte active_cwd
      → All IsByte sudo_password
      → (word : Bytes) × ((wrap_command is_print cmd active_cwd sudo_password).0
          ≡ codes "sh -c 'echo " ++ (word ++ codes " | (base64 -d 2>/dev/null || base64 -D) | sh'"))
        × All IsBase64 word
        × (decode word ≡ some (raw_script is_print cmd active_cwd sudo_password))
  wrap-decode hc hd hp =
      let bytes = raw_script-IsByte hc hd hp in
      let script = raw_script is_print cmd active_cwd sudo_password in
      (
        encode script,
        unfold wrap_command in refl,
        encode-IsBase64 script bytes,
        decode-encode script bytes,
      )

  -- The directory stands in the script between double quotes, and where it is plain text it stands
  -- there as it is, with the dollar signs and backticks that a shell expands in such quotes.
  pub cd_line_plain :
      All IsPlain active_cwd
      → raw_script is_print cmd active_cwd sudo_password
        ≡ (codes "cd \"" ++ (active_cwd ++ codes "\" 2>/dev/null || cd /\n"))
          ++ (setup sudo_password ++ (cmd ++ footer))
  cd_line_plain h =
      unfold raw_script in
      ap (λ q. (codes "cd " ++ q) ++ (setup sudo_password ++ (cmd ++ footer)))
        (ap (λ q. q ++ or_root) (quote_plain is_print active_cwd h)
          ∙ ap (λ q. b'"' ∷ q) (append_assoc active_cwd (b'"' ∷ []) or_root))
