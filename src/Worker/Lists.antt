-- ===== src/Worker/Lists.antt =====
-- The lists of a worker after a destination has been added or removed.
use str_manager.Prelude.{
  ◌≡◌, refl, ◌∙◌, inl, inr, String, some, List, [], ◌∷◌, ◌++◌, arith, Bool-cases, if◌then◌else◌,
}
use str_manager.Int.{ℤ, ◌==◌, ==_iff}
use str_manager.Run.{Returns}
use str_manager.System.{System}
use str_manager.Udp
use str_manager.Udp.{UdpStream}
use str_manager.StreamList.{StreamList, add_destination, exist_destination}
use str_manager.StreamList.Destinations.{remove, remove-absent, rem_destination-present}
use str_manager.Streams.{Streams, get_stream_list}
use str_manager.Streams.Views.{
  list_at, SameStreams, Linked, get_stream_list_lem, add_stream_list-Linked, same-Linked,
}
use str_manager.Worker.{Worker, add_destination_to, remove_destination}

-- A destination is appended if its identifier is new.
abbrev pub extend : UdpStream → List UdpStream → List UdpStream
extend d ds = if exist_destination d.id ds then ds else ds ++ d ∷ []

-- The list at `src` has other destinations, and all other lists are as before.
abbrev pub Redirected : Streams → Streams → ℤ → StreamList → List UdpStream → Type 0
Redirected st st' src l ds =
    (j : ℤ)
    → list_at st' j ≡ (if j == src then some (record l { destinations = ds }) else list_at st j)

module _ (w : Worker) (src : ℤ) (l : StreamList) (u : UdpStream)
    (present : list_at w.streams src ≡ some l) (source : l.source ≡ some u) where
  Linked-Redirected :
      {st : Streams} (ds : List UdpStream)
      → Linked w.streams st src (record l { destinations = ds }) u.addr
      → Redirected w.streams st src l ds
  Linked-Redirected ds linked j = linked.lists j

  same-Redirected :
      {st : Streams} → SameStreams w.streams st → Redirected w.streams st src l l.destinations
  same-Redirected same j = same.lists j ∙ ground (arith, present, ==_iff j src)

  pub add_destination_to-Redirected :
      {S : Type 0} (sys : System S) (dest_id : ℤ) (ip : String) (port : ℤ) (s : S)
      → Returns (add_destination_to sys w src dest_id ip port s) λ w'.
        Redirected w.streams w'.streams src l
          (extend (Udp.make sys s dest_id ip port) l.destinations)
  unfolding add_destination_to add_destination Udp.make
  add_destination_to-Redirected sys dest_id ip port s =
      let (read, same) = get_stream_list_lem w.streams src in
      let st = (get_stream_list w.streams src).1 in
      let ds = l.destinations ++ Udp.make sys s dest_id ip port ∷ [] in
      let (st', entered, linked) =
        add_stream_list-Linked st src (record l { destinations = ds }) u source in
      rw (read, present)
        (elim (Bool-cases (exist_destination dest_id l.destinations)) [
          | inl old ↦ rw old (record w { streams = st }, refl, same-Redirected same)
          | inr new ↦
              rw (new, entered)
                (record w { streams = st' }, refl, Linked-Redirected ds (same-Linked same linked))
        ])

  pub remove_destination-Redirected :
      (dest_id : ℤ)
      → Returns
          (remove_destination w src dest_id)
          λ w'. Redirected w.streams w'.streams src l (remove dest_id l.destinations)
  unfolding remove_destination
  remove_destination-Redirected dest_id =
      let (read, same) = get_stream_list_lem w.streams src in
      let st = (get_stream_list w.streams src).1 in
      let ds = remove dest_id l.destinations in
      let (st', entered, linked) =
        add_stream_list-Linked st src (record l { destinations = ds }) u source in
      rw (read, present)
        (elim (Bool-cases (exist_destination dest_id l.destinations)) [
          | inl old ↦
              rw (old, rem_destination-present l dest_id old, entered)
                (record w { streams = st' }, refl, Linked-Redirected ds (same-Linked same linked))
          | inr new ↦
              rw (new, remove-absent dest_id l.destinations new)
                (record w { streams = st }, refl, same-Redirected same)
        ])
