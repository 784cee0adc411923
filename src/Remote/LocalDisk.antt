-- ===== src/Remote/LocalDisk.antt =====
-- A local disk that is kept in memory, with every directory there. It shows that what is asked of
-- package `os` can hold.
use mcp_ssh_workspace.Common.{ℕ, ◌≡◌, refl, Option, none, some, [], Bytes}
use mcp_ssh_workspace.Common.Store.{fetch}
use mcp_ssh_workspace.Common.Dict.{lookup}
use mcp_ssh_workspace.Remote.{write_exclusive, opened}
use mcp_ssh_workspace.Remote.Download.{Disk}
use mcp_ssh_workspace.Remote.Download.Copied.{DiskContents}
use mcp_ssh_workspace.Remote.Memory.{Node, directory, file, Host, text_of, opening, writing}
use mcp_ssh_workspace.Remote.Memory.Laws.{opening_here, append_here}

abbrev pub disk : Disk Host
disk = record {
  mkdir_all = λ p v. (none, v);
  open_file = λ mode p v. opening mode p (lookup p v.nodes) v;
  write = λ h s v. writing s (fetch h v.handles) v;
  close = λ h v. v;
}

opening_new :
    (p : Bytes) (found : Option Node) (v v' : Host) (h : ℕ)
    → opening write_exclusive p found v ≡ (opened h, v')
    → text_of found ≡ none
opening_new p none v v' h e = refl
opening_new p (some directory) v v' h e = refl
opening_new p (some (file t)) v v' h e = absurd cc

pub disk-Contents : DiskContents disk
disk-Contents = record {
  contents = λ p v. text_of (lookup p v.nodes);
  path_of = λ h v. fetch h v.handles;
  mkdir_keeps = λ p q v. refl;
  open_here = λ mode p v v' h. opening_here mode p (lookup p v.nodes) v v' h;
  open_new = λ p v v' h e. opening_new p (lookup p v.nodes) v v' h e;
  write_here = λ h p new v v' here empty e.
      append_here p [] new (text_of (lookup p v.nodes)) v v' empty (rw here at e);
  close_keeps = λ h q v. refl;
}
