-- ===== src/Remote/Memory.antt =====
-- A remote host that is kept in memory. It shows that what is asked of the SFTP library can hold.
pub mod Laws
use mcp_ssh_workspace.Common.{
  ℕ, ◌≡◌, ◌≢◌, refl, sym, ap, ◌∙◌, Bool, true, false, Bool-cases, inl, inr, Option, none, some,
  List, [], ◌∷◌, if◌then◌else◌, ◌++◌, Bytes, codes, length, eqb, eqb_iff, eqb_refl, arith,
}
use mcp_ssh_workspace.Common.Store.{fetch, alloc, fetch-alloc_new}
use mcp_ssh_workspace.Common.Dict.{Dict, lookup, insert, erase, lookup-insert, lookup-erase}
use mcp_ssh_workspace.Common.Int.{pos}
use mcp_ssh_workspace.Text.Path.{base, dir}
use mcp_ssh_workspace.Remote.{
  Mode, read_write_truncate, write_truncate, write_exclusive, Opened, opened, refused, Read, Stat,
  stat_of, no_stat, whole, broken, FileInfo, entries, Sftp,
}
use mcp_ssh_workspace.Remote.Writing.{Contents}
use mcp_ssh_workspace.Remote.Directories.{Directories}

-- A path holds a directory, or a file with a text. A handle is a position in the list of all paths
-- that were opened.
pub data Node : Type 0 where
  directory : Node
  file : Bytes → Node

pub record Host : Type 0 where
  pub nodes : Dict Node
  pub handles : List Bytes

abbrev is_directory : Option Node → Option Bool
is_directory none = none
is_directory (some directory) = some true
is_directory (some (file t)) = some false

abbrev pub text_of : Option Node → Option Bytes
text_of none = none
text_of (some directory) = none
text_of (some (file t)) = some t

abbrev put : Bytes → Node → Host → Host
put p n w = record w { nodes = insert p n w.nodes }

abbrev make : Bytes → Option Node → Host → Option Bytes × Host
make p none w = (none, put p directory w)
make p (some n) w = (some (codes "exists"), w)

abbrev pub truncated : Bytes → Host → Opened × Host
truncated p w = (
  opened (length w.handles),
  record { nodes = insert p (file []) w.nodes; handles = alloc w.handles p },
)

abbrev pub opening : Mode → Bytes → Option Node → Host → Opened × Host
opening mode p (some directory) w = (refused (codes "directory"), w)
opening mode p none w = truncated p w
opening write_exclusive p (some (file t)) w = (refused (codes "exists"), w)
opening read_write_truncate p (some (file t)) w = truncated p w
opening write_truncate p (some (file t)) w = truncated p w

abbrev opening_read : Bytes → Option Node → Host → Opened × Host
opening_read p none w = (refused (codes "no such file"), w)
opening_read p (some n) w = (opened (length w.handles), record w { handles = alloc w.handles p })

abbrev stat_answer : Option Bool → Stat
stat_answer none = no_stat (codes "no such file")
stat_answer (some is_dir) = stat_of is_dir

abbrev found_by : Option Bytes → Host → Option Node
found_by none w = none
found_by (some p) w = lookup p w.nodes

abbrev read_of : Option Bytes → Read
read_of none = broken [] (codes "no such file")
read_of (some t) = whole t

abbrev info_of : Bytes → Node → FileInfo
info_of p directory = record {
  name = base p;
  is_dir = true;
  size = pos 0;
  mode = [];
  mod_time = [];
}
info_of p (file t) = record {
  name = base p;
  is_dir = false;
  size = pos (length t);
  mode = [];
  mod_time = [];
}

abbrev children : Bytes → Dict Node → List FileInfo
children p [] = []
children p ((q, n) ∷ nodes) =
    let rest = children p nodes in if eqb (dir q) p then info_of q n ∷ rest else rest

abbrev append_to : Bytes → Bytes → Option Bytes → Host → Option Bytes × Host
append_to p s none w = (some (codes "no such file"), w)
append_to p s (some t) w = (none, put p (file (t ++ s)) w)

abbrev pub writing : Bytes → Option Bytes → Host → Option Bytes × Host
writing s none w = (some (codes "no such handle"), w)
writing s (some p) w = append_to p s (text_of (lookup p w.nodes)) w

abbrev renaming : Bytes → Bytes → Option Node → Option Node → Host → Option Bytes × Host
renaming p q none there w = (some (codes "no such file"), w)
renaming p q (some n) (some there) w = (some (codes "exists"), w)
renaming p q (some n) none w = (none, record w { nodes = insert q n (erase p w.nodes) })

abbrev pub memory : Sftp Host
memory = record {
  stat = λ p w. is_directory (lookup p w.nodes);
  mkdir = λ p w. make p (lookup p w.nodes) w;
  open_file = λ mode p w. opening mode p (lookup p w.nodes) w;
  open_read = λ p w. opening_read p (lookup p w.nodes) w;
  handle_stat = λ h w. stat_answer (is_directory (found_by (fetch h w.handles) w));
  read_all = λ h w. (read_of (text_of (found_by (fetch h w.handles) w)), w);
  read_dir = λ p w. entries (children p w.nodes);
  write = λ h s w. writing s (fetch h w.handles) w;
  close = λ h w. w;
  remove = λ p w. record w { nodes = erase p w.nodes };
  rename = λ p q w. renaming p q (lookup p w.nodes) (lookup q w.nodes) w;
}
