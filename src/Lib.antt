-- ===== src/Lib.antt =====
-- A model of mcp-ssh-workspace, a server that lets a language model work on a remote host over SSH.
--
-- The program. `cmd/mcp-ssh-workspace/main.go` reads the configuration (`internal/config/config.go`),
-- makes a client (`internal/sshclient`) and registers the tools (`internal/tools/register.go`). A tool
-- reads its parameters from a request and calls the client. The client runs commands in a wrapped shell
-- script and cuts the directory and the exit code out of their output (`exec.go`), keeps the tasks of
-- commands that were started (`tasks.go`), reads and changes files over SFTP (`sftp.go`), and forwards
-- local ports (`tunnel.go`).
--
-- The files.
--   Common    results of Go calls, maps, the heap, numbers, and lemmas on lists
--   Text      what the program uses of Go's `strings`, `fmt`, `strconv`, `path/filepath`,
--             `encoding/base64`: one module per topic, with laws beside it
--   Exec      `exec.go`: Wrap is `WrapCommand`, Markers is `parseCommandMarkers`, Finish is what the
--             goroutines of `RunCommand` write when a session ends, and Goroutines lets those of all
--             commands go on in any order
--   Tasks     `tasks.go`: `Register`, `Get`, `List`, `Kill` and `Tail` are `register`, `get`, `list`, `kill`
--             and `tail`
--   Files     `sftp.go` on the text of a file: View is `ViewFile`, Replace is `ReplaceFileContent`
--   Remote    `sftp.go` on the remote host: `ResolvePath`, `mkdirAll`, `WriteFile`, `UploadFile`,
--             `DownloadFile` (Download), `ListDir` (Listing), `ViewFile` (View) and `ReplaceFileContent`
--             (Edit), which use Files; Answers says which of them can panic, RoundTrip composes them
--   Tunnels   `tunnel.go`: `Open`, `Close`, `List` and `CloseAll` are `open_tunnel`, `close`, `list` and
--             `close_all`; Forward is `forwardLoop`
--   Tools     `register.go`: the parameters, the task tool, the tunnel tool, the commands of the search tools,
--             and how a request becomes a call of the client
--   Client    `client.go`, method by method, and `RunCommand` of `exec.go` in Run: Ended is the branch of a
--             command that ended in time, Reported follows `RunCommand` to it, Registered says when a task is
--             registered
--   Server    `register.go` on the whole state: Files and Commands make the replies of the tools, Tools is the
--             handler of each tool, Serving what `main.go` starts; Valid shows that every handler answers;
--             Messages are the texts of the errors; Schemas are the tools as they are declared, with their
--             parameters; Written, Edited, Viewed and Copied follow the requests for files down to the remote
--             host and the local disk, Connected and Ran those to connect and to run a command, and RoundTrip one
--             request after another
--   Config    `config.go`: `Parse` and `ResolveHostConfig` are `parse` and `resolve_host_config`
-- The module Examples of each part, and in Remote and Server those whose names end in Examples, hold its
-- tests and concrete instances of its theorems.
--
-- How the code is modelled. A Go string is its list of bytes. An `int` that may be negative is a ℤ, any
-- other number a native one; the counters of identifiers wrap around at 2^64. A call that returns a value
-- and an error is a `Result`, whose third outcome is a run-time panic; a call that returns an error only
-- is an `Option`. What changes state takes the state and answers the new one. A lock makes its call one
-- step. The map of tunnels holds pointers into a heap; a task is the value behind its pointer.
--
-- Bounds and fuel. The digits of a number run on the number itself, and the loop of `CloseAll` on the
-- number of entries; the theorems show that this is enough. Identifiers are fresh below 2^63 - 1.
--
-- Parameters. The table of `unicode.IsPrint`, `net.Listen`, the calls of the SFTP library
-- (`Remote.Sftp`, with what is relied on in `Remote.Writing.Contents` and
-- `Remote.Directories.Directories`, which `Remote.Memory` fulfils), those of package `os` on local
-- files (`Remote.Download.Disk` and `Remote.Download.Copied.DiskContents`, which `Remote.LocalDisk`
-- fulfils), the calls of the SSH library (`Client.Network` and `Client.Run.Sessions`, which also
-- answers whether a command ends in time, and with what output), the getters of the MCP library
-- (`Tools.Request`), the environment, the files and the decoded `~/.ssh/config` (`Config.Machine`),
-- and `flag.Parse`.
--
-- Not modelled: JSON, so that a value stands for its text; the descriptions of the tools; the second
-- look at the connection in `mkdirAll`; two requests at one time: the MCP library hands tool calls to
-- concurrent workers and recovers their panics, while here a request is one step of the server, and
-- the next one follows it; what `main.go` does but for making the client and serving; and the
-- libraries under `vendor`.
pub mod Common
pub mod Text
pub mod Exec
pub mod Tasks
pub mod Files
pub mod Remote
pub mod Tunnels
pub mod Tools
pub mod Config
pub mod Client
pub mod Server
