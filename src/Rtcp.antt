-- ===== src/Rtcp.antt =====
-- RtcpWorker.h and RtcpWorker.cpp: a forwarder of pairs of streams, RTP at a port and RTCP at the
-- next one. Its `add_socket` and `remove_socket` hide those of the base class and open and close
-- both ports of a pair; its `addSource` calls the former for either port.
pub mod Stale
pub mod Pairs
pub mod Destinations
pub mod Sources
pub mod Removal
pub mod Reopen
use str_manager.Prelude.{String, Bool, true, false, Option, some, if◌then◌else◌, ◌&&◌}
use str_manager.Int.{ℤ, pos, negsuc, ◌==◌, truthy, inc, pred}
use str_manager.Run.{Run, ok, ◌>>=◌}
use str_manager.System.{System}
use str_manager.Table
use str_manager.Table.Keys.{int_key}
use str_manager.Ports.{Ports, register, unregister, init_socket}
use str_manager.Streams.{
  Streams, get_stream_list, get_list_id_by_socket, add_stream_list, remove_stream_list, store,
}
use str_manager.StreamList
use str_manager.StreamList.{
  StreamList, set_list_id, set_source, deref, get_source_port, add_destination, exist_destination,
  rem_destination,
}
use str_manager.Udp
use str_manager.Worker.{Worker}

module _ {S : Type 0} (sys : System S) where
  -- `RtcpWorker::add_socket`
  unfoldable pub add_socket : Ports → ℤ → S → ℤ × Ports × S
  add_socket p port s =
      let (n, listeners) = Table.index (pos 0) port p.port_listener in
      let seen : Ports = record p { port_listener = listeners } in
      let (fd, s₁) = init_socket sys port s in
      let (fd2, s₂) = init_socket sys (inc port) s₁ in
      if truthy n
      then (pos 0, record p { port_listener = Table.put port (inc n) listeners }, s)
      else if fd == negsuc 0
      then (negsuc 0, seen, s₂)
      else if fd2 == negsuc 0
      then (negsuc 0, seen, s₂)
      else (pos 1, register (register seen port fd) (inc port) fd2, s₂)

  -- `RtcpWorker::remove_socket`
  unfoldable pub remove_socket : Ports → ℤ → S → Bool × Ports × S
  remove_socket p port s =
      let (n, listeners) = Table.index (pos 0) port p.port_listener in
      let seen : Ports = record p { port_listener = Table.put port (pred n) listeners } in
      let (fd, port_fd) = Table.index (pos 0) port seen.port_fd in
      let (fd2, port_fd2) = Table.index (pos 0) (inc port) port_fd in
      if pred n == pos 0
      then (
        true,
        record {
          port_fd = Table.erase (inc port) (Table.erase port port_fd2);
          fd_port = Table.erase fd2 (Table.erase fd seen.fd_port);
          port_listener = Table.erase (inc port) (Table.erase port seen.port_listener);
        },
        sys.close (sys.close s fd) fd2,
      )
      else (false, seen, s)

  -- A list and its source, as `addSource` makes them.
  unfoldable pub new_list : ℤ → String → ℤ → S → StreamList
  new_list id ip port s =
      set_source (set_list_id (StreamList.new sys s) id) (some (Udp.make sys s id ip port))

  -- `RtcpWorker::addSource`
  unfoldable pub add_source : Worker → ℤ → String → ℤ → S → Run (Bool × Worker × S)
  unfolding new_list
  add_source w src_id ip port s =
      let (known, st₁) = get_list_id_by_socket w.streams (Udp.make sys s src_id ip port).addr in
      let (known2, st₂) =
        get_list_id_by_socket st₁ (Udp.make sys s (inc src_id) ip (inc port)).addr in
      let (ret, ports₁, s₁) = add_socket w.ports port s in
      let (ret2, ports₂, s₂) = add_socket ports₁ (inc port) s₁ in
      if truthy known
      then ok (false, record w { streams = st₁ }, s)
      else if truthy known2
      then ok (false, record w { streams = st₂ }, s)
      else if ret == negsuc 0
      then ok (false, record w { ports = ports₂; streams = st₂ }, s₂)
      else if ret2 == negsuc 0
      then ok (false, record w { ports = ports₂; streams = st₂ }, s₂)
      else do
        st₃ ← add_stream_list st₂ src_id (new_list src_id ip port s)
        st₄ ← add_stream_list st₃ (inc src_id) (new_list (inc src_id) ip (inc port) s)
        ok (true, record w { ports = ports₂; streams = st₄ }, s₂)

  -- `RtcpWorker::removeSource`; the worker is not stopped when it becomes empty.
  unfoldable pub remove_source : Worker → ℤ → S → Run (Worker × S)
  remove_source w src_id s = do
    let (l, st₁) = get_stream_list w.streams src_id
    list ← deref l
    port ← get_source_port sys list
    let (closed, ports₁, s₁) = remove_socket w.ports (pos port) s
    let (l2, st₂) = get_stream_list st₁ (inc src_id)
    list2 ← deref l2
    port2 ← get_source_port sys list2
    let (closed2, ports₂, s₂) = remove_socket ports₁ (pos port2) s₁
    st₃ ← remove_stream_list st₂ src_id
    st₄ ← remove_stream_list st₃ (inc src_id)
    ok (record w { ports = ports₂; streams = st₄ }, s₂)

  -- `RtcpWorker::addDestination`. The second list is used only if the first took its stream; what
  -- the first took stays there if the second refuses.
  unfoldable pub add_destination_to : Worker → ℤ → ℤ → String → ℤ → S → Run Worker
  add_destination_to w src_id dest_id ip port s = do
    let (l, st₁) = get_stream_list w.streams src_id
    let (l2, st₂) = get_stream_list st₁ (inc src_id)
    list ← deref l
    (added, list') ← add_destination list (some (Udp.make sys s dest_id ip port))
    let both = do
      list2 ← deref l2
      (added2, list2') ← add_destination list2 (some (Udp.make sys s (inc dest_id) ip (inc port)))
      let entered = do
        st₃ ← add_stream_list st₂ src_id list'
        add_stream_list st₃ (inc src_id) list2'
      if added2 then entered else ok (store st₂ src_id list')
    st' ← (if added then both else ok st₂)
    ok (record w { streams = st' })

-- `RtcpWorker::removeDestination`
unfoldable pub remove_destination : Worker → ℤ → ℤ → Run Worker
remove_destination w src_id dest_id = do
  let (l, st₁) = get_stream_list w.streams src_id
  let (l2, st₂) = get_stream_list st₁ (inc src_id)
  list ← deref l
  let removal = do
    list2 ← deref l2
    let pair = do
      (removed, list') ← rem_destination list dest_id
      (removed2, list2') ← rem_destination list2 (inc dest_id)
      st₃ ← add_stream_list st₂ src_id list'
      add_stream_list st₃ (inc src_id) list2'
    if exist_destination (inc dest_id) list2.destinations then pair else ok st₂
  st' ← (if exist_destination dest_id list.destinations then removal else ok st₂)
  ok (record w { streams = st' })
