-- ===== src/Print.antt =====
-- The tables as text: `printStream` of UdpStream.cpp, `printList` of StreamList.cpp, the printers of
-- Worker.cpp and those of Manager.cpp. An output stream is the text written to it so far.
pub mod Ports
pub mod Pages
use Prim.Native.String.{String, []}
use str_manager.Prelude.{ℕ, zero, suc, List, [], ◌∷◌, Option, none, some, get_elem?, length}
use str_manager.Int.{ℤ, pos, negsuc}
use str_manager.Run.{Run, ok, fault, null_pointer, out_of_literal, no_return, ◌>>=◌}
use str_manager.Text.{◌+++◌}
use str_manager.Text.Decimal.{show_nat, show_int}
use str_manager.System.{SockAddr, System}
use str_manager.Table.{Table}
use str_manager.Udp.{UdpStream}
use str_manager.StreamList.{StreamList, deref}
use str_manager.Streams.{get_stream_list}
use str_manager.Ports.{IntTable}
use str_manager.Worker.{Worker}
use str_manager.Manager.{Manager, WorkerTable}

module _ {S : Type 0} (sys : System S) where
  unfoldable pub print_stream : UdpStream → String
  print_stream u =
      "udpStream: "
      +++ show_int u.id
      +++ " "
      +++ sys.inet_ntoa u.addr.sin_addr
      +++ ":"
      +++ show_nat (sys.ntohs u.addr.sin_port)
      +++ "\n"

  -- The loop over the destinations.
  unfoldable pub print_streams : List UdpStream → String
  print_streams [] = ""
  print_streams (u ∷ us) = print_stream u +++ "\n" +++ print_streams us

  -- `StreamList::printList`
  unfoldable pub print_stream_list : StreamList → Run String
  print_stream_list l = do
    source ← deref l.source
    ok (
        "Printing streamList "
        +++ show_int l.list_id
        +++ "\nSource:\n"
        +++ print_stream source
        +++ "\nDestinations:\n"
        +++ print_streams l.destinations)

  -- The loop of `Worker::printManagement`: a null pointer is logged only.
  unfoldable pub print_lists : Table ℤ (Option StreamList) → Run String
  print_lists [] = ok ""
  print_lists (e ∷ es) =
      let rest = print_lists es in
      elim e.1 [
        | none ↦ rest
        | some l ↦ do text ← print_stream_list l; more ← rest; ok (text +++ "\n" +++ more)
      ]

  unfoldable pub print_worker : Worker → Run String
  print_worker w = do
    lists ← print_lists w.streams.management
    ok ("Replication lists of worker " +++ show_int w.worker_id +++ "\n" +++ lists)

  -- `Worker::printList`, which enters a missing list as a null pointer and then returns nothing.
  unfoldable pub print_list : Worker → ℤ → Run (String × Worker)
  print_list w src_id =
      let (l, st) = get_stream_list w.streams src_id in
      elim l [
        | none ↦ fault no_return
        | some list ↦ do
          text ← print_stream_list list
          ok (text +++ "\n", record w { streams = st })
      ]

-- The loop of `Worker::printForwarding`.
unfoldable pub print_ids : Table SockAddr ℤ → String
print_ids [] = ""
print_ids (e ∷ es) = "ListID: " +++ show_int e.1 +++ "\n" +++ print_ids es

unfoldable pub print_sources : Worker → String
print_sources w =
    "Sources of: " +++ show_int w.worker_id +++ "\n" +++ print_ids w.streams.forwarding

-- `workerId + "\n"` is a pointer into the literal, which has two characters.
unfoldable pub newline_from : ℤ → Run String
newline_from (pos zero) = ok "\n"
newline_from (pos (suc zero)) = ok ""
newline_from (pos (suc (suc n))) = fault out_of_literal
newline_from (negsuc n) = fault out_of_literal

-- The loop of `Worker::printPortFd`.
unfoldable pub print_ports : ℤ → IntTable → Run String
print_ports id [] = ok ""
print_ports id (e ∷ es) = do
  end ← newline_from id
  more ← print_ports id es
  ok (show_int e.0 +++ " " +++ show_int e.1 +++ " in socketWoker " +++ end +++ more)

unfoldable pub print_port_fd_of : Worker → Run String
print_port_fd_of w = do
  lines ← print_ports w.worker_id w.ports.port_fd
  ok (
      "portFd size = "
      +++ show_nat (length w.ports.port_fd)
      +++ " in socketWoker "
      +++ show_int w.worker_id
      +++ "\n"
      +++ lines)

-- The loops of the manager's printers, over the workers in a table.
unfoldable pub print_workers : (Worker → Run String) → List Worker → WorkerTable → Run String
print_workers page heap [] = ok ""
print_workers page heap (e ∷ es) = do
  w ← deref (get_elem? heap e.1)
  text ← page w
  more ← print_workers page heap es
  ok (text +++ "\n" +++ more)

unfoldable pub print_management : {S : Type 0} → System S → Manager → Run String
print_management sys m = do
  pages ← print_workers (print_worker sys) m.heap m.worker_id_worker
  ok ("Printing management list of all workers\n" +++ pages)

-- Over the sources, so that a worker is printed once for each of its sources.
unfoldable pub print_forwarding : Manager → Run String
print_forwarding m = do
  pages ← print_workers (λ w. ok (print_sources w)) m.heap m.src_id_worker
  ok ("Printing forwarding list of all workers\n" +++ pages)

unfoldable pub print_port_fd : Manager → Run String
print_port_fd m = do
  pages ← print_workers print_port_fd_of m.heap m.src_id_worker
  ok ("Printing PortFd list of all workers\n" +++ pages)
