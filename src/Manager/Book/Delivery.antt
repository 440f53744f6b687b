-- ===== src/Manager/Book/Delivery.antt =====
-- What a source of the abstract book has in an execution: a worker, its sockets and its routes.
use str_manager.Prelude.{
  ℕ, ◌≡◌, ◌<◌, ◌⊎◌, refl, ap, subst, sym, ◌∙◌, String, Bool, true, false, none, some, List, arith,
  Option-cases, inl, inr, get_elem?, if◌then◌else◌,
}
use str_manager.Int.{ℤ, pos}
use str_manager.System.{SockAddr, System, SystemLaws}
use str_manager.Table.{find?}
use str_manager.Table.Keys.{int_key}
use str_manager.Udp
use str_manager.Udp.{UdpStream, sock_addr_cmp}
use str_manager.Streams.Views.{list_at, route}
use str_manager.Streams.Routing.{route-source}
use str_manager.Ports.Sockets.{port_of}
use str_manager.Worker.{Worker}
use str_manager.Worker.Valid.{source-open}
use str_manager.Worker.Destinations.{addrs}
use str_manager.Worker.Loop.{process}
use str_manager.Manager.{Manager, Ptr}
use str_manager.Manager.Sound.{Sound}
use str_manager.Manager.Book.{book}
use str_manager.Prelude
use str_manager.Worker.Valid.{IsValid}
use str_manager.StreamList.{StreamList}
use str_manager.Message.{forward}
use str_manager.Int.{to_u16, to_u32}
use str_manager.Worker.Loop.Packets.{send_each, forward_process-route}
use str_manager.Streams.Routing.{id_at-congr}
use str_manager.Streams.Views.{id_at}
use str_manager.Manager.Book.Executions.{Execution, Execution-Sound}

module _ {S : Type 0} (sys : System S) (opened : S → ℤ → Bool) (laws : SystemLaws sys opened)
    (max_workers : ℕ) where
  -- A source with its destinations in the book, as its worker has it.
  pub record Served (m : Manager) (s : S) (src_id : ℤ) (u : UdpStream) (ds : List UdpStream)
      : Type 0 where
    pub owner : Ptr
    pub worker : Worker
    pub fd : ℤ
    pub owned : find? src_id m.src_id_worker ≡ some owner
    pub there : get_elem? m.heap owner ≡ some worker
    pub listening : port_of worker.ports fd ≡ some (pos (Udp.port_of sys u))
    pub routed : (a : SockAddr) → sock_addr_cmp a u.addr ≡ true → route worker.streams a ≡ addrs ds
    pub forwards :
        worker.class ≡ forward
        → (from_fd port : ℤ) → port_of worker.ports from_fd ≡ some port
        → Prelude.◌==◌ (to_u32 (sys.recvfrom s from_fd).0.0) 0 ≡ false
        → sock_addr_cmp
            (record (sys.recvfrom s from_fd).0.1 { sin_port = sys.htons (to_u16 port) })
            u.addr
          ≡ true
        → (process sys worker.class worker from_fd s).1
          ≡ send_each sys from_fd
              (to_u32 (sys.recvfrom s from_fd).0.0)
              (addrs ds)
              (sys.time (sys.recvfrom s from_fd).1).1

  -- The list of a source is what a look-up of its address finds.
  forwards_to :
      {w : Worker} {s : S} (valid : IsValid sys opened w s) (src_id : ℤ) (u : UdpStream)
      (l : StreamList)
      → list_at w.streams src_id ≡ some l
      → l.source ≡ some u
      → w.class ≡ forward
      → (fd port : ℤ) → port_of w.ports fd ≡ some port
      → Prelude.◌==◌ (to_u32 (sys.recvfrom s fd).0.0) 0 ≡ false
      → sock_addr_cmp (record (sys.recvfrom s fd).0.1 { sin_port = sys.htons (to_u16 port) }) u.addr
        ≡ true
      → (process sys w.class w fd s).1
        ≡ send_each sys fd
            (to_u32 (sys.recvfrom s fd).0.0)
            (addrs l.destinations)
            (sys.time (sys.recvfrom s fd).1).1
  unfolding process
  forwards_to {w} {s} valid src_id u l present source class fd port registered nonempty same =
      let from : SockAddr = record (sys.recvfrom s fd).0.1 { sin_port = sys.htons (to_u16 port) } in
      let led : id_at w.streams from ≡ src_id =
        id_at-congr w.streams from u.addr same
        ∙ valid.routes.led src_id u.addr (rw (present, source) refl) in
      let known : list_at w.streams (id_at w.streams from) ≡ some l =
        ap (list_at w.streams) led ∙ present in
      ap (λ c. (process sys c w fd s).1) class
      ∙ (forward_process-route sys opened laws valid fd port registered nonempty).0
      ∙ rw (route-source valid.routes src_id l u present source from same, known) refl

  -- In every execution in which no source is added of RTCP's type, with the identifier 0 or one in use, or
  -- at a port of more than 16 bits, a source that is in the book has a worker whose tables have an open
  -- descriptor for its port and route the packets from its address to the addresses of its destinations
  -- in the book, in order. If the worker is a forwarder, `process` sends a packet of some length from the
  -- source, received at any of the worker's descriptors, to these addresses, in order. This is about the
  -- tables and about `process`: whether the worker's thread still calls it, or has been stopped, is not
  -- said.
  pub Execution-Served :
      {m : Manager} {s : S} (src_id : ℤ) (u : UdpStream) (ds : List UdpStream)
      → Execution sys opened max_workers m s
      → book m src_id ≡ some (some u, ds)
      → Served m s src_id u ds
  Execution-Served {m} {s} src_id u ds before e =
      elim (Option-cases (find? src_id m.src_id_worker)) [
        | inl unknown ↦ absurd (ground arith)
        | inr (p, owned) ↦ elim (Option-cases (get_elem? m.heap p)) [
          | inl dangling ↦ absurd (ground arith)
          | inr (w, there) ↦ elim (Option-cases (list_at w.streams src_id)) [
            | inl absent ↦ absurd (ground arith)
            | inr (l, present) ↦
                let valid = sound.valid p w there in
                let source : l.source ≡ some u = ground arith in
                let same : l.destinations ≡ ds = ground arith in
                let (fd, is_open) = source-open sys valid src_id l u present source in
                record {
                  owner = p;
                  worker = w;
                  fd = fd;
                  owned = owned;
                  there = there;
                  listening = valid.sockets.port_of_fd (pos (Udp.port_of sys u)) fd is_open;
                  routed = λ a h.
                      route-source valid.routes src_id l u present source a h ∙ ap addrs same;
                  forwards = λ class from_fd port registered nonempty from.
                      forwards_to valid src_id u l present source class from_fd port registered
                        nonempty from
                      ∙ ap
                          (λ us.
                            send_each sys from_fd (to_u32 (sys.recvfrom s from_fd).0.0) (addrs us)
                              (sys.time (sys.recvfrom s from_fd).1).1)
                          same;
                }
          ]
        ]
      ]
    where
      sound : Sound sys opened m.heap m.src_id_worker s
      sound = Execution-Sound sys opened laws max_workers before
