-- ===== src/Server/Schemas.antt =====
-- The tools as internal/tools/register.go declares them to the MCP library, without the descriptions.
pub mod Declared
pub mod Keys
pub mod Reads
use mcp_ssh_workspace.Common.{List, [], ◌∷◌, Bytes, codes}
use mcp_ssh_workspace.Tools.Calls.{
  remote_connect, remote_set_sudo_password, remote_run_command, remote_view_file,
  remote_replace_file_content, remote_write_file, remote_list_dir, remote_upload_file,
  remote_download_file,
}
use mcp_ssh_workspace.Server.Tools.{
  ServerTool, calls, remote_disconnect, remote_manage_task, remote_session_info, remote_grep_search,
  remote_find_by_name, remote_tunnel,
}

-- What a parameter is declared with: mcp.WithString and so on.
pub data ToolOption : Type 0 where
  with_string with_integer with_boolean with_array : Bytes → ToolOption

abbrev pub name_of : ToolOption → Bytes
name_of (with_string name) = name
name_of (with_integer name) = name
name_of (with_boolean name) = name
name_of (with_array name) = name

pub record McpTool : Type 0 where
  pub name : Bytes
  pub options : List ToolOption

-- mcp.NewTool
abbrev new_tool : Bytes → List ToolOption → McpTool
new_tool tool_name options = record { name = tool_name; options = options }

abbrev pub connect_tool : McpTool
connect_tool = new_tool (codes "remote_connect") (
    with_string (codes "host")
    ∷ with_string (codes "Host")
    ∷ with_integer (codes "port")
    ∷ with_integer (codes "Port")
    ∷ with_string (codes "user")
    ∷ with_string (codes "User")
    ∷ with_string (codes "keyPath")
    ∷ with_string (codes "KeyPath")
    ∷ with_string (codes "password")
    ∷ with_string (codes "Password")
    ∷ with_string (codes "sudoPassword")
    ∷ with_string (codes "SudoPassword")
    ∷ [])

abbrev pub disconnect_tool : McpTool
disconnect_tool = new_tool (codes "remote_disconnect") ([])

abbrev pub set_sudo_tool : McpTool
set_sudo_tool = new_tool (codes "remote_set_sudo_password") (
    with_string (codes "sudoPassword")
    ∷ with_string (codes "SudoPassword")
    ∷ with_string (codes "password")
    ∷ [])

abbrev pub run_cmd_tool : McpTool
run_cmd_tool = new_tool (codes "remote_run_command") (
    with_string (codes "commandLine")
    ∷ with_string (codes "CommandLine")
    ∷ with_string (codes "command")
    ∷ with_string (codes "cwd")
    ∷ with_string (codes "Cwd")
    ∷ with_boolean (codes "sudo")
    ∷ with_boolean (codes "Sudo")
    ∷ with_string (codes "sudoPassword")
    ∷ with_string (codes "SudoPassword")
    ∷ with_boolean (codes "isDaemon")
    ∷ with_boolean (codes "IsDaemon")
    ∷ with_integer (codes "waitMsBeforeAsync")
    ∷ with_integer (codes "WaitMsBeforeAsync")
    ∷ [])

abbrev pub manage_task_tool : McpTool
manage_task_tool = new_tool (codes "remote_manage_task") (
    with_string (codes "action")
    ∷ with_string (codes "Action")
    ∷ with_string (codes "taskId")
    ∷ with_string (codes "TaskId")
    ∷ with_integer (codes "lines")
    ∷ with_integer (codes "Lines")
    ∷ with_string (codes "input")
    ∷ with_string (codes "Input")
    ∷ [])

abbrev pub session_info_tool : McpTool
session_info_tool = new_tool (codes "remote_session_info") ([])

abbrev pub view_file_tool : McpTool
view_file_tool = new_tool (codes "remote_view_file") (
    with_string (codes "absolutePath")
    ∷ with_string (codes "AbsolutePath")
    ∷ with_string (codes "path")
    ∷ with_integer (codes "startLine")
    ∷ with_integer (codes "StartLine")
    ∷ with_integer (codes "endLine")
    ∷ with_integer (codes "EndLine")
    ∷ with_integer (codes "maxBytes")
    ∷ with_integer (codes "MaxBytes")
    ∷ [])

abbrev pub replace_file_tool : McpTool
replace_file_tool = new_tool (codes "remote_replace_file_content") (
    with_string (codes "targetFile")
    ∷ with_string (codes "TargetFile")
    ∷ with_string (codes "targetContent")
    ∷ with_string (codes "TargetContent")
    ∷ with_string (codes "replacementContent")
    ∷ with_string (codes "ReplacementContent")
    ∷ with_integer (codes "startLine")
    ∷ with_integer (codes "StartLine")
    ∷ with_integer (codes "endLine")
    ∷ with_integer (codes "EndLine")
    ∷ with_boolean (codes "allowMultiple")
    ∷ with_boolean (codes "AllowMultiple")
    ∷ [])

abbrev pub write_file_tool : McpTool
write_file_tool = new_tool (codes "remote_write_file") (
    with_string (codes "targetFile")
    ∷ with_string (codes "TargetFile")
    ∷ with_string (codes "codeContent")
    ∷ with_string (codes "CodeContent")
    ∷ with_string (codes "content")
    ∷ with_boolean (codes "overwrite")
    ∷ with_boolean (codes "Overwrite")
    ∷ [])

abbrev pub list_dir_tool : McpTool
list_dir_tool = new_tool (codes "remote_list_dir") (
    with_string (codes "directoryPath")
    ∷ with_string (codes "DirectoryPath")
    ∷ with_string (codes "path")
    ∷ [])

abbrev pub upload_tool : McpTool
upload_tool = new_tool (codes "remote_upload_file") (
    with_string (codes "localPath")
    ∷ with_string (codes "LocalPath")
    ∷ with_string (codes "remotePath")
    ∷ with_string (codes "RemotePath")
    ∷ with_boolean (codes "overwrite")
    ∷ with_boolean (codes "Overwrite")
    ∷ [])

abbrev pub download_tool : McpTool
download_tool = new_tool (codes "remote_download_file") (
    with_string (codes "remotePath")
    ∷ with_string (codes "RemotePath")
    ∷ with_string (codes "localPath")
    ∷ with_string (codes "LocalPath")
    ∷ with_boolean (codes "overwrite")
    ∷ with_boolean (codes "Overwrite")
    ∷ [])

abbrev pub grep_tool : McpTool
grep_tool = new_tool (codes "remote_grep_search") (
    with_string (codes "searchPath")
    ∷ with_string (codes "SearchPath")
    ∷ with_string (codes "query")
    ∷ with_string (codes "Query")
    ∷ with_boolean (codes "isRegex")
    ∷ with_boolean (codes "IsRegex")
    ∷ with_boolean (codes "caseInsensitive")
    ∷ with_boolean (codes "CaseInsensitive")
    ∷ with_array (codes "includes")
    ∷ with_array (codes "Includes")
    ∷ [])

abbrev pub find_tool : McpTool
find_tool = new_tool (codes "remote_find_by_name") (
    with_string (codes "searchDirectory")
    ∷ with_string (codes "SearchDirectory")
    ∷ with_string (codes "pattern")
    ∷ with_string (codes "Pattern")
    ∷ with_string (codes "type")
    ∷ with_string (codes "Type")
    ∷ with_integer (codes "maxDepth")
    ∷ with_integer (codes "MaxDepth")
    ∷ [])

abbrev pub tunnel_tool_schema : McpTool
tunnel_tool_schema = new_tool (codes "remote_tunnel") (
    with_string (codes "action")
    ∷ with_string (codes "Action")
    ∷ with_integer (codes "localPort")
    ∷ with_integer (codes "LocalPort")
    ∷ with_string (codes "remoteHost")
    ∷ with_string (codes "RemoteHost")
    ∷ with_integer (codes "remotePort")
    ∷ with_integer (codes "RemotePort")
    ∷ with_string (codes "tunnelId")
    ∷ with_string (codes "TunnelId")
    ∷ [])

-- The tools in the order of their registration.
abbrev pub register_tools : List McpTool
register_tools =
    connect_tool ∷ disconnect_tool ∷ set_sudo_tool ∷ run_cmd_tool ∷ manage_task_tool
    ∷ session_info_tool ∷ view_file_tool ∷ replace_file_tool ∷ write_file_tool ∷ list_dir_tool
    ∷ upload_tool ∷ download_tool ∷ grep_tool ∷ find_tool ∷ tunnel_tool_schema ∷ []

abbrev pub schema : ServerTool → McpTool
schema (calls remote_connect) = connect_tool
schema remote_disconnect = disconnect_tool
schema (calls remote_set_sudo_password) = set_sudo_tool
schema (calls remote_run_command) = run_cmd_tool
schema remote_manage_task = manage_task_tool
schema remote_session_info = session_info_tool
schema (calls remote_view_file) = view_file_tool
schema (calls remote_replace_file_content) = replace_file_tool
schema (calls remote_write_file) = write_file_tool
schema (calls remote_list_dir) = list_dir_tool
schema (calls remote_upload_file) = upload_tool
schema (calls remote_download_file) = download_tool
schema remote_grep_search = grep_tool
schema remote_find_by_name = find_tool
schema remote_tunnel = tunnel_tool_schema
