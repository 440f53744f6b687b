-- ===== src/Worker/Loop.antt =====
-- The thread of a worker: `Worker::run` by rounds, and the `process` methods of ForwardWorker.cpp
-- and StatsWorker.cpp, which a round calls for each ready descriptor.
pub mod Packets
pub mod Ready
pub mod Counting
use str_manager.Prelude.{
  ℕ, zero, suc, ◌+◌, ◌%◌, Bool, true, false, Option, none, some, List, [], ◌∷◌, if◌then◌else◌,
}
use str_manager.Prelude
use str_manager.Int.{ℤ, pos, ◌==◌, ltb, inc, to_u16, to_u32, to_s32}
use str_manager.Run.{Run, ok, ◌>>=◌}
use str_manager.System.{System, SockAddr}
use str_manager.Message.{Message, Class, forward, rtcp, stats, nothing_to_do}
use str_manager.Table
use str_manager.Table.Keys.{int_key}
use str_manager.Ports.{Ports, IntTable, build_select_list}
use str_manager.Streams.{Streams, get_list_id_by_socket, get_stream_list, store}
use str_manager.StreamList.{StreamList, Rates, update_time_stamp}
use str_manager.StreamList.Stats.{update_input_bytes}
use str_manager.Udp.{UdpStream}
use str_manager.Worker.{Worker}

-- `FD_ISSET`
abbrev pub is_set : ℤ → List ℤ → Bool
is_set fd [] = false
is_set fd (f ∷ fs) = if fd == f then true else is_set fd fs

-- A list of the subclass, with the fields that it adds: the `dynamic_pointer_cast` of `process`.
abbrev pub rated : Option StreamList → Option (StreamList × Rates)
rated none = none
rated (some l) = elim l.rates [ none ↦ none | some r ↦ some (l, r) ]

module _ {S : Type 0} (sys : System S) where
  -- The loop over a copy of the destinations.
  unfoldable pub send_to_all : ℤ → ℕ → List UdpStream → S → S
  send_to_all fd rlen [] s = s
  send_to_all fd rlen (u ∷ us) s = send_to_all fd rlen us (sys.sendto s fd rlen u.addr)

  -- The list that a packet belongs to, by its sender's address and the port it arrived at, with the
  -- identifier at which the list stands.
  unfoldable pub receiver : Worker → ℤ → SockAddr → (ℤ × Option StreamList) × Worker
  receiver w fd from =
      let (port, fd_port) = Table.index (pos 0) fd w.ports.fd_port in
      let (id, st₁) =
        get_list_id_by_socket w.streams (record from { sin_port = sys.htons (to_u16 port) }) in
      let (l, st₂) = get_stream_list st₁ id in
      ((id, l), record w { ports = record w.ports { fd_port = fd_port }; streams = st₂ })

  -- `ForwardWorker::process`. The length is unsigned, so the test for an error never holds.
  unfoldable pub forward_process : Worker → ℤ → S → Worker × S
  forward_process w fd s =
      let ((length, from), s₁) = sys.recvfrom s fd in
      let rlen = to_u32 length in
      let ((id, l), w') = receiver w fd from in
      if Prelude.◌==◌ rlen 0 then (w, s₁) else elim l [
        | none ↦ (w', s₁)
        | some b ↦
            let (b', s₂) = update_time_stamp sys b s₁ in
            (record w' { streams = store w'.streams id b' }, send_to_all fd rlen b.destinations s₂)
      ]

  -- `StatsWorker::process`, for a list of the subclass.
  unfoldable pub count_packet : Worker → ℤ → StreamList → Rates → ℕ → Worker
  count_packet w id b r rlen = record w {
    input_bytes = to_s32 ((to_u32 w.input_bytes + rlen) % 0x1_0000_0000);
    streams = store w.streams id (record b { rates = some (update_input_bytes r (to_s32 rlen)) });
  }

  unfoldable pub stats_process : Worker → ℤ → S → Worker × S
  unfolding count_packet
  stats_process w fd s =
      let ((length, from), s₁) = sys.recvfrom s fd in
      let rlen = to_u32 length in
      let ((id, l), w') = receiver w fd from in
      if Prelude.◌==◌ rlen 0 then (w, s₁) else elim (rated l) [
        | none ↦ (w', s₁)
        | some (b, r) ↦ (count_packet w' id b r rlen, send_to_all fd rlen b.destinations s₁)
      ]

  -- The virtual `process`; an RTCP worker inherits the forwarder's.
  unfoldable pub process : Class → Worker → ℤ → S → Worker × S
  process forward = forward_process
  process rtcp = forward_process
  process stats = stats_process

  -- `check_select_list`: the entries of `portFd`, which no `process` changes.
  unfoldable pub check_select_list : IntTable → List ℤ → Worker → S → Worker × S
  check_select_list [] fdset w s = (w, s)
  check_select_list (e ∷ es) fdset w s =
      let (w', s') = if is_set e.1 fdset then process w.class w e.1 s else (w, s) in
      check_select_list es fdset w' s'

  -- One round of `run`, with the messages it sends.
  unfoldable pub run_round : Worker → S → Run (Worker × List Message × S)
  run_round w s = do
    (highsock, fdset) ← build_select_list sys w.ports
    let ((readsocks, ready), s₁) = sys.select s (inc highsock) fdset
    let (w', s₂) = check_select_list w.ports.port_fd ready w s₁
    ok (
        if Table.is_empty w.ports.port_fd
        then (w, [], s)
        else if ltb (pos 0) readsocks
        then (w', [], s₂)
        else (w, nothing_to_do w.worker_id ∷ [], s₁))

  -- `run`: rounds as long as the worker works; `n` bounds their number in this model.
  unfoldable pub run : ℕ → Worker → S → Run (Worker × List Message × S)
  run zero w s = ok (w, [], s)
  run (suc n) w s =
      let rounds = run_round w s >>= (λ first. do
        (w', sent, s') ← run n first.0 first.2
        ok (w', Prelude.◌++◌ first.1 sent, s')) in
      if w.working then rounds else ok (w, [], s)
