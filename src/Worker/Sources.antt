-- ===== src/Worker/Sources.antt =====
-- `addSource` of Worker.cpp on a well formed worker.
use str_manager.Prelude.{
  ℕ, ◌<◌, ◌≡◌, refl, ap, sym, ◌∙◌, String, Option, none, some, Bool, true, false, arith, inl, inr,
  Bool-cases, if◌then◌else◌,
}
use str_manager.Prelude
use str_manager.Int.{ℤ, pos, negsuc, ◌==◌, truthy, falsy, inc}
use str_manager.System.{System, SystemLaws}
use str_manager.Run.{Returns}
use str_manager.Ports.{Ports, add_socket}
use str_manager.Ports.Sockets.{listeners, SameListeners, Counts}
use str_manager.Ports.Invariant.{IsConsistent, add_socket-IsConsistent}
use str_manager.Ports.Counts.{add_socket-Counts, add_socket-failed}
use str_manager.Streams.{Streams, get_list_id_by_socket}
use str_manager.Streams.Views.{
  list_at, id_at, SameStreams, Linked, get_list_id_lem, add_stream_list-Linked, same-Linked,
}
use str_manager.Streams.Routing.{Linked-IsLinked, SameStreams-IsLinked}
use str_manager.StreamList.{StreamList, set_list_id, set_source}
use str_manager.Udp
use str_manager.Udp.{UdpStream, port_of-make}
use str_manager.Worker.{Worker, add_source_with}
use str_manager.Worker.Valid.{listens, IsValid}

module _ {S : Type 0} (sys : System S) {opened : S → ℤ → Bool} where
  -- Reading the tables of streams, and tables of sockets with the same listeners, change nothing.
  pub same-IsValid :
      {w : Worker} {s s' : S} {ports : Ports} {st : Streams}
      → IsValid sys opened w s
      → IsConsistent opened ports s'
      → SameListeners w.ports ports
      → SameStreams w.streams st
      → IsValid sys opened (record w { ports = ports; streams = st }) s'
  same-IsValid valid sockets listened same = record {
    sockets = sockets;
    routes = SameStreams-IsLinked valid.routes same;
    keyed = same.keyed valid.keyed;
    shared = λ q. listened (pos q) ∙ valid.shared q ∙ ap pos (sym (same.weights (listens sys q)));
  }

module _ {S : Type 0} (sys : System S) (opened : S → ℤ → Bool) (laws : SystemLaws sys opened)
    {w : Worker} {s : S} (valid : IsValid sys opened w s) (src_id : ℤ) (ip : String) (q : ℕ)
    (fresh : StreamList) where
  -- The source and the list that `addSource` makes.
  abbrev pub new_source : UdpStream
  new_source = Udp.make sys s src_id ip (pos q)

  abbrev pub new_list : StreamList
  new_list = record fresh { list_id = src_id; source = some new_source }

  -- An accepted source is linked to a new list; a refused one leaves the lists alone.
  abbrev pub Outcome : Bool → Worker → Type 0
  Outcome true w' = Linked w.streams w'.streams src_id new_list new_source.addr
  Outcome false w' = SameStreams w.streams w'.streams

  linked-IsValid :
      (src_id == pos 0) ≡ false
      → list_at w.streams src_id ≡ none
      → q < 0x1_0000
      → id_at w.streams new_source.addr ≡ pos 0
      → {ports : Ports} {st : Streams} {s' : S} → IsConsistent opened ports s'
      → Counts w.ports ports (pos q) (inc (listeners w.ports (pos q)))
      → Linked w.streams st src_id new_list new_source.addr
      → IsValid sys opened (record w { ports = ports; streams = st }) s'
  linked-IsValid nonzero absent range unknown sockets counts linked = record {
    sockets = sockets;
    routes =
        Linked-IsLinked valid.routes src_id new_list new_source refl nonzero absent unknown linked;
    keyed = linked.keyed valid.keyed;
    shared = λ p.
        counts (pos p)
        ∙ ground (
          arith,
          valid.shared p,
          valid.shared q,
          linked.weights (listens sys p),
          absent,
          port_of-make sys laws s src_id ip (pos q),
          Prelude.==_iff p q,
        );
  }

  -- On a well formed worker, with an identifier other than 0 that has no list and a port of 16 bits,
  -- `addSource` returns and leaves a well formed worker. If it accepts the source, the new list is
  -- entered at the identifier and the source's address leads to it, and nothing else changes; if it
  -- does not, no list and no address changes.
  pub add_source_with-IsValid :
      (src_id == pos 0) ≡ false
      → list_at w.streams src_id ≡ none
      → q < 0x1_0000
      → Returns
          (add_source_with sys w src_id ip (pos q) fresh s)
          λ r. IsValid sys opened r.1 r.2 × Outcome r.0 r.1
  unfolding add_source_with set_list_id set_source
  add_source_with-IsValid nonzero absent range =
      let (read, same) = get_list_id_lem w.streams new_source.addr in
      let st = (get_list_id_by_socket w.streams new_source.addr).1 in
      let r = add_socket sys w.ports (pos q) s in
      let sockets : IsConsistent opened r.1 r.2 =
        add_socket-IsConsistent sys opened laws valid.sockets (pos q) in
      rw read (elim (Bool-cases (truthy (id_at w.streams new_source.addr))) [
        | inl known ↦ rw known (
          (false, record w { streams = st }, s),
          refl,
          (same-IsValid sys valid valid.sockets (λ p. refl) same, same),
        )
        | inr unknown ↦ elim (Bool-cases (r.0 == negsuc 0)) [
          | inl failed ↦
              rw (unknown, failed)
                (
                  (false, record w { ports = r.1; streams = st }, r.2),
                  refl,
                  (
                    same-IsValid sys valid sockets
                        (add_socket-failed sys opened laws valid.sockets (pos q) failed) same,
                    same,
                  ),
                )
          | inr success ↦
              let (st', added, linked) =
                add_stream_list-Linked st src_id new_list new_source refl in
              let linked' = same-Linked same linked in
              rw (unknown, success, added)
                (
                  (true, record w { ports = r.1; streams = st' }, r.2),
                  refl,
                  (
                    linked-IsValid nonzero absent range (falsy _ unknown) sockets
                        (add_socket-Counts sys opened laws valid.sockets (pos q) success) linked',
                    linked',
                  ),
                )
        ]
      ])
