-- ===== src/Ports.antt =====
-- The sockets of a worker: the tables `portFd`, `fdPort` and `portListener` of Worker.h with the
-- methods of Worker.cpp that keep them, and the list of descriptors for `select`.
pub mod Sockets
pub mod Branches
pub mod Invariant
pub mod Counts
pub mod Local
use str_manager.Prelude.{ℕ, ltb, Bool, true, false, List, [], ◌∷◌, if◌then◌else◌}
use str_manager.Int.{ℤ, pos, negsuc, ◌==◌, is_neg, truthy, inc, pred, to_u16}
use str_manager.Int
use str_manager.Run.{Run, ok, fault, out_of_set}
use str_manager.System.{System}
use str_manager.Table
use str_manager.Table.{Table}
use str_manager.Table.Keys.{int_key}

abbrev pub IntTable : Type 0
IntTable = Table ℤ ℤ

pub record Ports : Type 0 where
  pub port_fd : IntTable
  pub fd_port : IntTable
  pub port_listener : IntTable

abbrev pub empty : Ports
empty = record { port_fd = []; fd_port = []; port_listener = [] }

unfoldable pub has_port : Ports → ℤ → Bool
has_port p port = Table.contains port p.port_fd

-- `portFd[port] = fd; fdPort[fd] = port; portListener[port] = 1;`
unfoldable pub register : Ports → ℤ → ℤ → Ports
register p port fd = record {
  port_fd = Table.put port fd p.port_fd;
  fd_port = Table.put fd port p.fd_port;
  port_listener = Table.put port (pos 1) p.port_listener;
}

-- Reading `portFd[port]` and the three `erase` calls: the descriptor and what is left.
unfoldable pub unregister : Ports → ℤ → ℤ × Ports
unregister p port =
    let (fd, port_fd) = Table.index (pos 0) port p.port_fd in
    (
      fd,
      record {
        port_fd = Table.erase port port_fd;
        fd_port = Table.erase fd p.fd_port;
        port_listener = Table.erase port p.port_listener;
      },
    )

-- Whether `FD_SET` may take the descriptor.
abbrev pub has_room : ℕ → ℤ → Bool
has_room size (pos n) = ltb n size
has_room size (negsuc n) = false

module _ {S : Type 0} (sys : System S) where
  -- The highest descriptor and the descriptors for `select`; starts from -1, and adds 1 at the end.
  unfoldable pub build_loop : IntTable → ℤ → List ℤ → Run (ℤ × List ℤ)
  build_loop [] highsock fdset = ok (inc highsock, fdset)
  build_loop (e ∷ es) highsock fdset =
      let rest = build_loop es (if Int.ltb highsock e.1 then e.1 else highsock) (e.1 ∷ fdset) in
      if has_room sys.fd_setsize e.1 then rest else fault out_of_set

  unfoldable pub build_select_list : Ports → Run (ℤ × List ℤ)
  unfolding build_loop
  build_select_list p = build_loop p.port_fd (negsuc 0) []

  -- A descriptor bound to the port, or -1. The socket that could not be bound is not closed.
  unfoldable pub init_socket : ℤ → S → ℤ × S
  init_socket port s =
      let (sock, s₁) = sys.socket s in
      let (result, s₂) = sys.bind s₁ sock (sys.htons (to_u16 port)) in
      if is_neg sock then (negsuc 0, s₁) else if is_neg result then (negsuc 0, s₂) else (sock, s₂)

  -- 1 if the port was opened, 0 if it was open already, -1 on a problem.
  unfoldable pub add_socket : Ports → ℤ → S → ℤ × Ports × S
  add_socket p port s =
      let (n, listeners) = Table.index (pos 0) port p.port_listener in
      let seen : Ports = record p { port_listener = listeners } in
      let (fd, s') = init_socket port s in
      if truthy n
      then (pos 0, record p { port_listener = Table.put port (inc n) listeners }, s)
      else if fd == negsuc 0
      then (negsuc 0, seen, s')
      else (pos 1, register seen port fd, s')

  -- True if the port was closed.
  unfoldable pub remove_socket : Ports → ℤ → S → Bool × Ports × S
  unfolding unregister
  remove_socket p port s =
      let (n, listeners) = Table.index (pos 0) port p.port_listener in
      let seen : Ports = record p { port_listener = Table.put port (pred n) listeners } in
      let (fd, closed) = unregister seen port in
      if pred n == pos 0 then (true, closed, sys.close s fd) else (false, seen, s)
