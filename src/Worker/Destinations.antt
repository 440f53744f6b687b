-- ===== src/Worker/Destinations.antt =====
-- `addDestination` and `removeDestination` of Worker.cpp: the worker's form, and the route of the
-- packets of each source.
use str_manager.Prelude.{
  ◌≡◌, refl, ◌∙◌, inl, inr, String, some, List, [], ◌∷◌, ◌++◌, map, Bool, false, arith, Bool-cases,
  if◌then◌else◌,
}
use str_manager.Int.{ℤ, pos, ◌==◌, ==_iff}
use str_manager.System.{System, SockAddr}
use str_manager.Run.{Returns}
use str_manager.Streams.{Streams, get_stream_list}
use str_manager.Streams.Views.{
  list_at, route, SameStreams, Linked, get_stream_list_lem, add_stream_list-Linked, same-Linked,
}
use str_manager.Streams.Routing.{relinked-IsLinked, route-Linked, route-same, route-source}
use str_manager.StreamList.{StreamList, exist_destination, add_destination}
use str_manager.StreamList.Destinations.{remove, remove-absent, rem_destination-present}
use str_manager.Udp
use str_manager.Udp.{UdpStream, sock_addr_cmp}
use str_manager.Worker.{Worker, add_destination_to, remove_destination}
use str_manager.Worker.Valid.{listens, IsValid}
use str_manager.Worker.Sources.{same-IsValid}

-- The addresses of a list of destinations.
abbrev pub addrs : List UdpStream → List SockAddr
addrs = map (λ d. d.addr)

-- The packets of `from` go to `targets`, and all others where they went.
abbrev pub Reroutes : Streams → Streams → SockAddr → List SockAddr → Type 0
Reroutes st st' from targets =
    (a : SockAddr) → route st' a ≡ (if sock_addr_cmp a from then targets else route st a)

module _ {S : Type 0} (sys : System S) (opened : S → ℤ → Bool) {w : Worker} {s : S}
    (valid : IsValid sys opened w s) (src_id : ℤ) (l : StreamList) (u : UdpStream)
    (present : list_at w.streams src_id ≡ some l) (source : l.source ≡ some u) where
  nonzero : (src_id == pos 0) ≡ false
  nonzero = ground (arith, valid.routes.no_zero, present, ==_iff src_id (pos 0))

  -- The list is entered again with other destinations.
  abbrev with_destinations : List UdpStream → StreamList
  with_destinations ds = record l { destinations = ds }

  pub relinked-IsValid :
      {st : Streams} (ds : List UdpStream)
      → Linked w.streams st src_id (with_destinations ds) u.addr
      → IsValid sys opened (record w { streams = st }) s × Reroutes w.streams st u.addr (addrs ds)
  relinked-IsValid {st} ds linked = (
    record {
      sockets = valid.sockets;
      routes =
          relinked-IsLinked valid.routes src_id (with_destinations ds) u source present source
            linked;
      keyed = linked.keyed valid.keyed;
      shared = λ p. valid.shared p ∙ ground (arith, linked.weights (listens sys p), present);
    },
    λ a.
        route-Linked valid.routes src_id (with_destinations ds) u nonzero
          (inr (ground (arith, present, source))) linked a,
  )

  unchanged-IsValid :
      {st : Streams} → SameStreams w.streams st → IsValid sys opened (record w { streams = st }) s
  unchanged-IsValid same = same-IsValid sys valid valid.sockets (λ p. refl) same

  -- The packets of the source go to its destinations already.
  own_route : Reroutes w.streams w.streams u.addr (addrs l.destinations)
  own_route a = elim (Bool-cases (sock_addr_cmp a u.addr)) [
    | inl own ↦ rw own (route-source valid.routes src_id l u present source a own)
    | inr other ↦ rw other
  ]

  -- On a well formed worker with the source, `addDestination` returns and leaves a well formed worker.
  -- A new identifier's address is appended to the route of the source and no other route changes; with
  -- an identifier that the source has as a destination, no route changes.
  pub add_destination_to-IsValid :
      (dest_id : ℤ) (ip : String) (port : ℤ)
      → let d = Udp.make sys s dest_id ip port in
        Returns (add_destination_to sys w src_id dest_id ip port s) λ w'.
          IsValid sys opened w' s
          × (if exist_destination dest_id l.destinations
              then ((a : SockAddr) → route w'.streams a ≡ route w.streams a)
              else Reroutes w.streams w'.streams u.addr (addrs (l.destinations ++ d ∷ [])))
  unfolding add_destination_to add_destination Udp.make
  add_destination_to-IsValid dest_id ip port =
      let (read, same) = get_stream_list_lem w.streams src_id in
      let st = (get_stream_list w.streams src_id).1 in
      let ds = l.destinations ++ Udp.make sys s dest_id ip port ∷ [] in
      let (st', entered, linked) =
        add_stream_list-Linked st src_id (with_destinations ds) u source in
      rw (read, present)
        (elim (Bool-cases (exist_destination dest_id l.destinations)) [
          | inl old ↦
              rw old (record w { streams = st }, refl, (unchanged-IsValid same, route-same same))
          | inr new ↦
              rw (new, entered)
                (record w { streams = st' }, refl, relinked-IsValid ds (same-Linked same linked))
        ])

  -- On a well formed worker with the source, `removeDestination` returns and leaves a well formed
  -- worker. The first destination with the identifier, if any, is taken out of the route of the source,
  -- and no other route changes.
  pub remove_destination-IsValid :
      (dest_id : ℤ)
      → Returns (remove_destination w src_id dest_id) λ w'.
        IsValid sys opened w' s
        × Reroutes w.streams w'.streams u.addr (addrs (remove dest_id l.destinations))
  unfolding remove_destination
  remove_destination-IsValid dest_id =
      let (read, same) = get_stream_list_lem w.streams src_id in
      let st = (get_stream_list w.streams src_id).1 in
      let ds = remove dest_id l.destinations in
      let (st', entered, linked) =
        add_stream_list-Linked st src_id (with_destinations ds) u source in
      rw (read, present)
        (elim (Bool-cases (exist_destination dest_id l.destinations)) [
          | inl old ↦
              rw (old, rem_destination-present l dest_id old, entered)
                (record w { streams = st' }, refl, relinked-IsValid ds (same-Linked same linked))
          | inr new ↦
              rw (new, remove-absent dest_id l.destinations new)
                (
                  record w { streams = st },
                  refl,
                  (unchanged-IsValid same, λ a. route-same same a ∙ own_route a),
                )
        ])
