-- ===== src/Exec/Wrap.antt =====
-- `WrapCommand` of internal/sshclient/exec.go.
pub mod Safety
use mcp_ssh_workspace.Common.{
  ℕ, ◌≡◌, refl, Bool, true, false, not, List, [], ◌∷◌, ◌++◌, Bytes, codes, eqb, if◌then◌else◌,
}
use mcp_ssh_workspace.Text.Quote.{quote}
use mcp_ssh_workspace.Text.Base64.{encode}
use mcp_ssh_workspace.Exec.Markers.{mcp_exit, mcp_cwd}

abbrev pub askpass_file : Bytes
askpass_file =
    codes
      "_AP=$(mktemp /tmp/.mcp_ap.XXXXXX 2>/dev/null || mktemp ~/.cache/.mcp_ap.XXXXXX 2>/dev/null || echo \"/tmp/.mcp_ap_$$\")\n"

abbrev pub askpass_head : Bytes
askpass_head = codes "cat << 'EOF_MCP_AP' > \"$_AP\"\n#!/bin/sh\ncat << 'EOF_MCP_PW'\n"

abbrev pub askpass_tail : Bytes
askpass_tail =
    codes "\nEOF_MCP_PW\nEOF_MCP_AP\n"
    ++ (codes "chmod 700 \"$_AP\" 2>/dev/null\n"
        ++ (codes "export SUDO_ASKPASS=\"$_AP\"\n"
            ++ (codes "sudo() { command sudo -A \"$@\"; }\n"
                ++ codes "trap 'rm -f \"$_AP\" 2>/dev/null' EXIT INT TERM HUP\n")))

-- The lines that set up `sudo -A` with a program that prints the password.
abbrev pub sudo_setup : Bytes → Bytes
sudo_setup sudo_password = askpass_file ++ (askpass_head ++ (sudo_password ++ askpass_tail))

-- The lines behind the command: its exit code and the directory, behind their markers.
abbrev pub footer : Bytes
footer =
    codes "\n__EC__=$?\n"
    ++ (codes "echo -n \"" ++ (mcp_exit ++ (codes ":$__EC__:" ++ (mcp_cwd ++ codes ":\" && pwd"))))

abbrev pub setup : Bytes → Bytes
setup sudo_password = if not (eqb sudo_password []) then sudo_setup sudo_password else []

-- The table of `unicode.IsPrint` is a parameter, as it is for `%q`.
module _ (is_print : ℕ → Bool) where
  abbrev pub cd_line : Bytes → Bytes
  cd_line active_cwd = codes "cd " ++ (quote is_print active_cwd ++ codes " 2>/dev/null || cd /\n")

  -- The script that the remote shell runs.
  unfoldable pub raw_script : Bytes → Bytes → Bytes → Bytes
  unfolding eqb quote
  raw_script cmd active_cwd sudo_password =
      cd_line active_cwd ++ (setup sudo_password ++ (cmd ++ footer))

  unfoldable pub wrap_command : Bytes → Bytes → Bytes → Bytes × Bytes × Bytes
  unfolding raw_script encode
  wrap_command cmd active_cwd sudo_password =
      let b64_script = encode (raw_script cmd active_cwd sudo_password) in
      (
        codes "sh -c 'echo "
            ++ (b64_script ++ codes " | (base64 -d 2>/dev/null || base64 -D) | sh'"),
        mcp_exit,
        mcp_cwd,
      )
