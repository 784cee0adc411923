-- ===== src/Tools.antt =====
-- internal/tools/register.go: what a tool does with the arguments of a request.
pub mod Params
pub mod Task
pub mod Search
pub mod Tunnel
pub mod Calls
pub mod Examples
use mcp_ssh_workspace.Common.{ℕ, ◌≡◌, Bool, true, false, List, [], ◌∷◌, Bytes, eqb, if◌then◌else◌}
use mcp_ssh_workspace.Common.Int.{ℤ}

-- The MCP library's view of a request: `has k` says that the arguments have the key `k`, and the
-- getters answer the default for a value of another type.
pub record Request : Type 0 where
  pub has : Bytes → Bool
  pub get_string : Bytes → Bytes → Bytes
  pub get_int : Bytes → ℤ → ℤ
  pub get_bool : Bytes → Bool → Bool
  pub get_string_slice : Bytes → List Bytes → List Bytes

unfoldable pub get_param_string : Request → List Bytes → Bytes
get_param_string req [] = []
get_param_string req (k ∷ ks) =
    let rest = get_param_string req ks in
    let val = req.get_string k [] in if eqb val [] then rest else val

unfoldable pub get_param_int : Request → ℤ → List Bytes → ℤ
get_param_int req default_value [] = default_value
get_param_int req default_value (k ∷ ks) =
    let rest = get_param_int req default_value ks in
    if req.has k then req.get_int k default_value else rest

unfoldable pub get_param_bool : Request → Bool → List Bytes → Bool
get_param_bool req default_value [] = default_value
get_param_bool req default_value (k ∷ ks) =
    let rest = get_param_bool req default_value ks in
    if req.has k then req.get_bool k default_value else rest

unfoldable pub get_param_string_slice : Request → List Bytes → List Bytes
get_param_string_slice req [] = []
get_param_string_slice req (k ∷ ks) =
    let rest = get_param_string_slice req ks in
    if req.has k then req.get_string_slice k [] else rest

-- The result of a tool: a text, or an error that is told to the model. `json` stands for the text
-- that `json.MarshalIndent` makes of a value.
pub data ToolResult (A : Type 0) : Type 0 where
  text : Bytes → ToolResult A
  json : A → ToolResult A
  error : Bytes → ToolResult A
