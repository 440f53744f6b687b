-- ===== src/Worker/Removal.antt =====
-- `removeSource` of Worker.cpp on a well formed worker.
use str_manager.Prelude.{
  ℕ, ◌+◌, ◌<◌, ◌≡◌, ◌⊎◌, refl, ap, sym, ◌∙◌, String, Option, none, some, List, [], ◌∷◌, Bool, true,
  false, arith, inl, inr, Bool-cases, Option-cases, if◌then◌else◌,
}
use str_manager.Prelude
use str_manager.Int.{ℤ, pos, pred, pred-pos}
use str_manager.System.{System, SystemLaws}
use str_manager.Run.{ok, Returns}
use str_manager.Message.{Message, no_job}
use str_manager.Ports.{Ports, remove_socket}
use str_manager.Ports.Sockets.{listeners, Counts}
use str_manager.Ports.Invariant.{IsConsistent, remove_socket-IsConsistent}
use str_manager.Ports.Counts.{remove_socket-Counts}
use str_manager.Streams.{Streams, is_empty, get_stream_list}
use str_manager.Streams.Views.{
  list_at, weight, Unlinked, get_stream_list_lem, remove_stream_list-Unlinked, same-Unlinked,
}
use str_manager.Streams.Routing.{Unlinked-IsLinked}
use str_manager.StreamList.{StreamList, get_source_port}
use str_manager.Udp
use str_manager.Udp.{UdpStream}
use str_manager.Worker.{Worker, remove_source, stop}
use str_manager.Worker.Valid.{listens, IsValid, source-open}

module _ {S : Type 0} (sys : System S) {opened : S → ℤ → Bool} where
  pub stop-IsValid : {w : Worker} {s : S} → IsValid sys opened w s → IsValid sys opened (stop w) s
  unfolding stop
  stop-IsValid valid = record {
    sockets = valid.sockets;
    routes = valid.routes;
    keyed = valid.keyed;
    shared = valid.shared;
  }

module _ {S : Type 0} (sys : System S) (opened : S → ℤ → Bool) (laws : SystemLaws sys opened)
    {w : Worker} {s : S} (valid : IsValid sys opened w s) (src_id : ℤ) (l : StreamList)
    (u : UdpStream) (present : list_at w.streams src_id ≡ some l) (source : l.source ≡ some u) where
  abbrev port : ℕ
  port = Udp.port_of sys u

  source_port : get_source_port sys l ≡ ok port
  unfolding get_source_port
  source_port = rw source

  unlinked-IsValid :
      {ports : Ports} {st : Streams} {s' : S}
      → IsConsistent opened ports s'
      → Counts w.ports ports (pos port) (pred (listeners w.ports (pos port)))
      → Unlinked w.streams st src_id u.addr
      → IsValid sys opened (record w { ports = ports; streams = st }) s'
  unlinked-IsValid {st} sockets counts unlinked = record {
    sockets = sockets;
    routes = Unlinked-IsLinked valid.routes src_id l u present source unlinked;
    keyed = unlinked.keyed valid.keyed;
    shared = λ p.
        counts (pos p)
        ∙ ground (
          arith,
          valid.shared p,
          valid.shared port,
          unlinked.weights valid.keyed (listens sys p),
          present,
          source,
          pred-pos (weight (listens sys p) w.streams) (weight (listens sys p) st),
          Prelude.==_iff p port,
          Prelude.==_iff port p,
        );
  }

  -- What the worker says and does after a removal: it stops and reports if nothing is left.
  abbrev pub Reported : Worker → List Message → Type 0
  Reported w' messages =
      ((is_empty w'.streams ≡ true) × (w'.working ≡ false) × (messages ≡ no_job w.worker_id ∷ []))
      ⊎ ((is_empty w'.streams ≡ false) × (w'.working ≡ w.working) × (messages ≡ []))

  -- Removing a source that a well formed worker has returns, leaves the worker well formed and the source
  -- unlinked, and stops the worker and reports it if the table of lists is empty then, and else does
  -- neither.
  pub remove_source-IsValid : Returns (remove_source sys w src_id s) λ r.
      IsValid sys opened r.0 r.2 × Unlinked w.streams r.0.streams src_id u.addr × Reported r.0 r.1
  unfolding remove_source stop
  remove_source-IsValid =
      let (read, same) = get_stream_list_lem w.streams src_id in
      let st = (get_stream_list w.streams src_id).1 in
      let (fd, is_open) = source-open sys valid src_id l u present source in
      let r = remove_socket sys w.ports (pos port) s in
      let (st', removed, unlinked) =
        remove_stream_list-Unlinked st src_id l u (same.lists src_id ∙ present) source in
      let unlinked' = same-Unlinked same unlinked in
      let w' : Worker = record w { ports = r.1; streams = st' } in
      let valid' : IsValid sys opened w' r.2 =
        unlinked-IsValid
          (remove_socket-IsConsistent sys opened laws valid.sockets (pos port) is_open)
          (remove_socket-Counts sys opened laws valid.sockets (pos port) is_open) unlinked' in
      rw (read, present, source_port, removed)
        (elim (Bool-cases (is_empty st')) [
          | inl last ↦ rw last (
            (stop w', no_job w.worker_id ∷ [], r.2),
            refl,
            (stop-IsValid sys valid', unlinked', inl (last, refl, refl)),
          )
          | inr left ↦ rw left ((w', [], r.2), refl, (valid', unlinked', inr (left, refl, refl)))
        ])
