-- ===== src/Server/CopyExamples.antt =====
-- Runs of requests to upload and to download a file.
use mcp_ssh_workspace.Common.{◌≡◌, refl, Bool, false, [], Bytes, codes, eqb, if◌then◌else◌}
use mcp_ssh_workspace.Common.Store.{fetch}
use mcp_ssh_workspace.Common.Dict.{lookup, insert, erase}
use mcp_ssh_workspace.Common.Result.{ok}
use mcp_ssh_workspace.Text.Decimal.{format}
use mcp_ssh_workspace.Text.Search.{has_prefix, split_on, join_on}
use mcp_ssh_workspace.Text.Path.{is_abs, clean, join, dir}
use mcp_ssh_workspace.Client.{
  auth_methods, connect, ensure_connected, ensure_handles, check_alive, dial_with, with_client,
  with_sftp, new_client,
}
use mcp_ssh_workspace.Remote.{whole, resolve_path, made, ensure_dir, make_parts, mkdir_all}
use mcp_ssh_workspace.Remote.Upload as Upload
use mcp_ssh_workspace.Remote.Upload.{local_file, copy_opened, upload_into}
use mcp_ssh_workspace.Remote.Download as Download
use mcp_ssh_workspace.Remote.Download.{copy_into, local_opened, directory_made, remote_opened}
use mcp_ssh_workspace.Remote.LocalDisk.{disk-Contents}
use mcp_ssh_workspace.Remote.Memory.{Host}
use mcp_ssh_workspace.Remote.Memory.Laws.{memory-Contents}
use mcp_ssh_workspace.Tools.{Request, get_param_string, get_param_bool}
use mcp_ssh_workspace.Tools.Calls.{
  upload_file, download_file, remote_upload_file, remote_download_file, upload_call, download_call,
  required, tool_call,
}
use mcp_ssh_workspace.Server.{Outside, Served, with_files, after_sftp, use_sftp}
use mcp_ssh_workspace.Server.Files.{upload_reply, serve_upload, download_reply, serve_download}
use mcp_ssh_workspace.Server.Tools.{calls, execute, after_params, serve}
use mcp_ssh_workspace.Server.Serving.{start_server}
use mcp_ssh_workspace.Server.Replied.{online}
use mcp_ssh_workspace.Server.Copied.{
  Uploaded, upload_tool-Uploaded, Downloaded, download_tool-Downloaded,
}
use mcp_ssh_workspace.Server.Examples.{outside, moment, first_state}
use mcp_ssh_workspace.Server.FileExamples.{state_after, text_after}

-- The same outside with a local file.
abbrev with_local : Outside Host Host
with_local = record outside { read_local = λ p v. local_file (whole (codes "text")) }

abbrev copy_value_of : Bytes → Bytes
copy_value_of k =
    if eqb k (codes "localPath")
    then codes "l"
    else if eqb k (codes "remotePath")
    then codes "f"
    else []

abbrev copy_request : Request
copy_request = record {
  has = λ k. false;
  get_string = λ k d. copy_value_of k;
  get_int = λ k d. d;
  get_bool = λ k d. d;
  get_string_slice = λ k d. d;
}

abbrev uploaded : Served Host Host
uploaded = serve with_local moment (calls remote_upload_file) copy_request first_state

upload_tool-Uploaded_example :
    (local_path : Bytes) × (remote_path : Bytes) × (overwrite : Bool) × (tool_call copy_request
        remote_upload_file
      ≡ ok (upload_file local_path remote_path overwrite))
    × Uploaded with_local
        (λ h. memory-Contents)
        (text_after uploaded)
        []
        (state_after uploaded)
        local_path
        remote_path
        (state_after uploaded)
unfolding serve after_params execute tool_call upload_call required get_param_string get_param_bool
    serve_upload upload_reply with_files after_sftp use_sftp ensure_connected ensure_handles
    check_alive start_server new_client connect dial_with with_client with_sftp auth_methods
    Upload.upload_file upload_into copy_opened mkdir_all make_parts ensure_dir made resolve_path
    is_abs clean join dir split_on join_on has_prefix lookup insert erase fetch eqb format
upload_tool-Uploaded_example =
    upload_tool-Uploaded with_local (λ h. memory-Contents) (text_after uploaded) []
      (state_after uploaded) moment copy_request first_state refl

abbrev downloaded : Served Host Host
downloaded = serve outside moment (calls remote_download_file) copy_request first_state

download_tool-Downloaded_example :
    (remote_path : Bytes) × (local_path : Bytes) × (overwrite : Bool) × (tool_call copy_request
        remote_download_file
      ≡ ok (download_file remote_path local_path overwrite))
    × Downloaded outside
        (λ h. memory-Contents)
        (text_after downloaded)
        []
        (state_after downloaded)
        disk-Contents
        remote_path
        local_path
        overwrite
        (online outside first_state)
        (state_after downloaded)
unfolding serve after_params execute tool_call download_call required get_param_string
    get_param_bool serve_download download_reply with_files after_sftp use_sftp ensure_connected
    ensure_handles check_alive start_server new_client connect dial_with with_client with_sftp
    auth_methods Download.download_file remote_opened directory_made local_opened copy_into
    resolve_path is_abs clean join dir split_on join_on has_prefix lookup insert erase fetch eqb
    format
download_tool-Downloaded_example =
    download_tool-Downloaded outside (λ h. memory-Contents) (text_after downloaded) []
      (state_after downloaded) disk-Contents moment copy_request first_state refl
