-- ===== src/Server/Examples.antt =====
-- Runs of whole requests.
use mcp_ssh_workspace.Common.{
  ◌≡◌, refl, ◌⊎◌, true, false, none, some, [], ◌∷◌, Bytes, codes, eqb, if◌then◌else◌, arith,
}
use mcp_ssh_workspace.Common.Int.{pos}
use mcp_ssh_workspace.Common.Result.{ok, err}
use mcp_ssh_workspace.Config.{Config, Machine}
use mcp_ssh_workspace.Client.{
  Network, connected, auth_methods, connect, dial_with, with_client, with_sftp, new_client,
}
use mcp_ssh_workspace.Client.Run.{Sessions, ended}
use mcp_ssh_workspace.Remote.Memory.{directory, file, Host, memory}
use mcp_ssh_workspace.Remote.LocalDisk.{disk}
use mcp_ssh_workspace.Remote.Upload.{no_file}
use mcp_ssh_workspace.Tools.{Request}
use mcp_ssh_workspace.Tools.Calls.{Tool, ClientCall, remote_view_file, remote_list_dir, tool_call}
use mcp_ssh_workspace.Server.{Outside, Moment, State}
use mcp_ssh_workspace.Server.Tools.{calls, serve}
use mcp_ssh_workspace.Server.Schemas.Keys.{Same}
use mcp_ssh_workspace.Server.Schemas.Reads.{serve-keys}
use mcp_ssh_workspace.Server.Valid.{Sound, Answers}
use mcp_ssh_workspace.Server.Valid.AllTools.{EditPanics}
use mcp_ssh_workspace.Server.Serving.{start_server, started, Serving-Sound, Serving-Answers}

abbrev laptop : Machine
laptop = record {
  getenv = λ k. [];
  home_dir = codes "/home/ann";
  ssh_config = none;
  exists = λ p. false;
}

abbrev pub remote : Host
remote = record {
  nodes = (codes "/a", directory) ∷ (codes "/a/f", file (codes "old")) ∷ [];
  handles = [];
}

-- A network on which everything succeeds.
abbrev network : Network Host
network = record {
  agent = λ sock w. false;
  private_key = λ p w. none;
  dial = λ address user methods w. (connected 1, w);
  new_sftp = λ client w. (connected 2, w);
  getwd = λ sftp_cli w. some (codes "/a");
  close_ssh = λ h w. w;
  close_sftp = λ h w. w;
}

abbrev sessions : Sessions Host
sessions = record {
  new_session = λ cli w. (connected 3, w);
  stdin_pipe = λ sess w. (connected 4, w);
  start = λ sess script w. (none, w);
  close_session = λ sess w. w;
  race = λ sess wait w. (ended none [] [], w);
  now = λ w. 5;
}

abbrev pub outside : Outside Host Host
outside = record {
  machine = laptop;
  network = network;
  sessions = sessions;
  sftp = λ h. memory;
  disk = disk;
  read_local = λ p v. no_file (codes "no such file");
  is_print = λ c. true;
}

abbrev pub moment : Moment
moment = record {
  nanos = 7;
  clock = codes "now";
  listen = λ address. err (codes "busy");
  stdin_answer = λ stdin line. none;
}

abbrev pub to_box : Config
to_box = record {
  host = codes "box";
  port = pos 22;
  user = codes "ann";
  key_path = [];
  password = codes "pw";
  sudo_password = [];
  work_dir = [];
  use_agent = true;
  known_hosts = [];
}

abbrev pub first_state : State Host Host
first_state = start_server outside to_box remote remote

abbrev value_of : Bytes → Bytes
value_of k = if eqb k (codes "path") then codes "f" else []

abbrev pub view_request : Request
view_request = record {
  has = λ k. false;
  get_string = λ k d. value_of k;
  get_int = λ k d. d;
  get_bool = λ k d. d;
  get_string_slice = λ k d. d;
}

Serving-Sound_example : Sound first_state.client
Serving-Sound_example = Serving-Sound outside first_state (started to_box remote remote)

Serving-Answers_example :
    Answers (serve outside moment (calls remote_view_file) view_request first_state)
    ⊎ ((t : Tool) × (c : ClientCall) × (calls remote_view_file ≡ calls t)
        × (tool_call view_request t ≡ ok c)
        × EditPanics c (serve outside moment (calls remote_view_file) view_request first_state))
unfolding start_server new_client connect dial_with with_client with_sftp auth_methods eqb
Serving-Answers_example =
    Serving-Answers outside first_state moment (calls remote_view_file) view_request
      (started to_box remote remote) (omega arith, omega arith) (λ address e. cc)

-- The same request with one more argument that no tool reads.
abbrev longer_request : Request
longer_request = record {
  has = λ k. eqb k (codes "other");
  get_string = λ k d. if eqb k (codes "other") then codes "x" else value_of k;
  get_int = λ k d. d;
  get_bool = λ k d. d;
  get_string_slice = λ k d. d;
}

same_at : (k : Bytes) → eqb k (codes "other") ≡ false → Same view_request longer_request k
same_at k other = (rw other refl, λ d. rw other refl, λ d. refl, λ d. refl, λ d. refl)

serve-keys_example :
    serve outside moment (calls remote_list_dir) view_request first_state
    ≡ serve outside moment (calls remote_list_dir) longer_request first_state
unfolding eqb
serve-keys_example =
    serve-keys outside moment first_state (calls remote_list_dir) view_request longer_request (
      same_at (codes "directoryPath") refl,
      (
        same_at (codes "DirectoryPath") refl,
        (same_at (codes "path") refl, (same_at (codes "dir_path") refl, tt)),
      ),
    )
