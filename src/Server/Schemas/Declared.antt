-- ===== src/Server/Schemas/Declared.antt =====
-- What the tools declare against what they read.
use mcp_ssh_workspace.Common.{◌≡◌, refl, Bool, true, not, ◌&&◌, List, [], ◌∷◌, Bytes, eqb, map}
use mcp_ssh_workspace.Tools.Calls.{
  remote_connect, remote_set_sudo_password, remote_run_command, remote_view_file,
  remote_replace_file_content, remote_write_file, remote_list_dir, remote_upload_file,
  remote_download_file,
}
use mcp_ssh_workspace.Server.Tools.{
  ServerTool, calls, remote_disconnect, remote_manage_task, remote_session_info, remote_grep_search,
  remote_find_by_name, remote_tunnel,
}
use mcp_ssh_workspace.Server.Schemas.{name_of, schema, register_tools}
use mcp_ssh_workspace.Server.Schemas.Keys.{keys, is_in, covers}

abbrev all_distinct : List Bytes → Bool
all_distinct [] = true
all_distinct (k ∷ ks) = let rest = all_distinct ks in not (is_in ks k) && rest

-- Every declared parameter is one of the keys.
declared_covered :
    (tool : ServerTool) → covers (keys tool) (map name_of (schema tool).options) ≡ true
unfolding eqb
declared_covered (calls remote_connect) = refl
declared_covered (calls remote_set_sudo_password) = refl
declared_covered (calls remote_run_command) = refl
declared_covered (calls remote_view_file) = refl
declared_covered (calls remote_replace_file_content) = refl
declared_covered (calls remote_write_file) = refl
declared_covered (calls remote_list_dir) = refl
declared_covered (calls remote_upload_file) = refl
declared_covered (calls remote_download_file) = refl
declared_covered remote_disconnect = refl
declared_covered remote_manage_task = refl
declared_covered remote_session_info = refl
declared_covered remote_grep_search = refl
declared_covered remote_find_by_name = refl
declared_covered remote_tunnel = refl

-- The tools are registered under different names.
names_distinct : all_distinct (map (λ t. t.name) register_tools) ≡ true
unfolding eqb
names_distinct = refl
