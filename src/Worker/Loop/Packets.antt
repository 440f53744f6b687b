-- ===== src/Worker/Loop/Packets.antt =====
-- What `ForwardWorker::process` does with a packet, against the routes of the worker's tables.
use str_manager.Prelude.{
  ℕ, ◌≡◌, refl, ap, sym, ◌∙◌, Option, none, some, List, [], ◌∷◌, map, Bool, true, false, arith, inl,
  inr, Bool-cases, Option-cases, if◌then◌else◌,
}
use str_manager.Prelude
use str_manager.Int.{ℤ, pos, to_u16, to_u32}
use str_manager.System.{System, SystemLaws, SockAddr}
use str_manager.Table.Keys.{int_key}
use str_manager.Table.Laws.{index-present}
use str_manager.Ports.Sockets.{port_of}
use str_manager.Ports.Branches.{StillOpen}
use str_manager.Ports.Invariant.{still-IsConsistent}
use str_manager.Streams.{store, get_list_id_by_socket}
use str_manager.Streams.Views.{
  list_at, id_at, route, SameStreams, SameStreams-trans, get_list_id_lem, get_stream_list_lem,
}
use str_manager.Streams.Store.{store-Keyed, store-weights, store-IsLinked, store-route}
use str_manager.Streams.Routing.{route-same}
use str_manager.StreamList.{StreamList, update_time_stamp}
use str_manager.Udp.{UdpStream}
use str_manager.Worker.{Worker}
use str_manager.Worker.Valid.{listens, IsValid}
use str_manager.Worker.Sources.{same-IsValid}
use str_manager.Worker.Loop.{send_to_all, receiver, forward_process}

module _ {S : Type 0} (sys : System S) where
  -- One datagram to each address.
  unfoldable pub send_each : ℤ → ℕ → List SockAddr → S → S
  send_each fd rlen [] s = s
  send_each fd rlen (a ∷ rest) s = send_each fd rlen rest (sys.sendto s fd rlen a)

  pub send_to_all-each :
      (fd : ℤ) (rlen : ℕ) (us : List UdpStream) (s : S)
      → send_to_all sys fd rlen us s ≡ send_each fd rlen (map (λ u. u.addr) us) s
  unfolding send_to_all send_each
  send_to_all-each fd rlen [] s = refl
  send_to_all-each fd rlen (u ∷ us) s = send_to_all-each fd rlen us (sys.sendto s fd rlen u.addr)

-- Writing a list with the same source back, whatever is counted beside it, keeps the worker well formed.
pub stored-IsValid :
    {S : Type 0} (sys : System S) {opened : S → ℤ → Bool} {w : Worker} {s s' : S}
    → IsValid sys opened w s
    → (id n : ℤ) (l l' : StreamList) → list_at w.streams id ≡ some l
    → l'.source ≡ l.source
    → StillOpen opened s s'
    → IsValid sys opened (record w { streams = store w.streams id l'; input_bytes = n }) s'
stored-IsValid sys {w} valid id n l l' present source still = record {
  sockets = still-IsConsistent valid.sockets still;
  routes = store-IsLinked w.streams id l l' present source valid.routes;
  keyed = store-Keyed w.streams id l' valid.keyed;
  shared = λ q.
      valid.shared q
      ∙ ground (arith, store-weights w.streams id l' (listens sys q), present, source);
}

module _ {S : Type 0} (sys : System S) (opened : S → ℤ → Bool) (laws : SystemLaws sys opened) where
  pub send_to_all-StillOpen :
      (fd : ℤ) (rlen : ℕ) (us : List UdpStream) (s : S)
      → StillOpen opened s (send_to_all sys fd rlen us s)
  unfolding send_to_all
  send_to_all-StillOpen fd rlen [] s f h = h
  send_to_all-StillOpen fd rlen (u ∷ us) s f h =
      send_to_all-StillOpen fd rlen us (sys.sendto s fd rlen u.addr) f
        (laws.opened-sendto s fd f rlen u.addr ∙ h)

  module _ {w : Worker} {s : S} (valid : IsValid sys opened w s) (fd port : ℤ)
      (registered : port_of w.ports fd ≡ some port) where
    -- The sender of the next packet, as the tables name it: its address, and the port of the socket.
    abbrev pub sender : SockAddr
    sender = record (sys.recvfrom s fd).0.1 { sin_port = sys.htons (to_u16 port) }

    abbrev pub rlen : ℕ
    rlen = to_u32 (sys.recvfrom s fd).0.0

    abbrev pub list_of_sender : Option StreamList
    list_of_sender = list_at w.streams (id_at w.streams sender)

    -- The clock is read once, before the copies are sent, if the sender is known.
    abbrev pub stamped : Option StreamList → S → S
    stamped none t = t
    stamped (some _) t = (sys.time t).1

    pub record Received (r : (ℤ × Option StreamList) × Worker) : Type 0 where
      pub id : r.0.0 ≡ id_at w.streams sender
      pub list : r.0.1 ≡ list_of_sender
      pub same : SameStreams w.streams r.1.streams
      pub counted : r.1.input_bytes ≡ w.input_bytes
      pub valid' : IsValid sys opened r.1 (sys.recvfrom s fd).1

    pub receiver-Received : Received (receiver sys w fd (sys.recvfrom s fd).0.1)
    unfolding receiver
    receiver-Received =
        let (read, same) = get_list_id_lem w.streams sender in
        let st₁ = (get_list_id_by_socket w.streams sender).1 in
        let id = (get_list_id_by_socket w.streams sender).0 in
        let (got, same₂) = get_stream_list_lem st₁ id in
        rw (index-present (pos 0) fd w.ports.fd_port registered) (record {
          id = read;
          list = got ∙ same.lists id ∙ ap (list_at w.streams) read;
          same = SameStreams-trans same same₂;
          counted = refl;
          valid' =
              same-IsValid sys valid
                (still-IsConsistent valid.sockets (λ f h. laws.opened-recvfrom s fd f ∙ h))
                (λ q. refl) (SameStreams-trans same same₂);
        })

    -- A well formed forwarder that receives a packet of some length at a registered descriptor sends a
    -- copy to each address on the sender's route, in order, and to nobody else. It stays well formed,
    -- and no route changes.
    pub forward_process-route :
        Prelude.◌==◌ rlen 0 ≡ false
        → let r = forward_process sys w fd s in
          (r.1
            ≡ send_each sys fd rlen
                (route w.streams sender)
                (stamped list_of_sender (sys.recvfrom s fd).1))
          × IsValid sys opened r.0 r.1
          × ((a : SockAddr) → route r.0.streams a ≡ route w.streams a)
    unfolding forward_process route update_time_stamp send_each
    forward_process-route nonempty =
        let got = receiver sys w fd (sys.recvfrom s fd).0.1 in
        let s₁ = (sys.recvfrom s fd).1 in
        elim (Option-cases list_of_sender) [
          | inl unknown ↦
              rw (nonempty, received.list, unknown)
                (refl, received.valid', route-same received.same)
          | inr (b, known) ↦
              let b' = (update_time_stamp sys b s₁).0 in
              let there : list_at got.1.streams got.0.0 ≡ some b =
                received.same.lists got.0.0 ∙ ap (list_at w.streams) received.id ∙ known in
              rw (nonempty, received.list, known)
                (
                  send_to_all-each sys fd rlen b.destinations (sys.time s₁).1,
                  stored-IsValid sys received.valid' got.0.0 got.1.input_bytes b b' there refl
                      (λ f h.
                        send_to_all-StillOpen fd rlen b.destinations (sys.time s₁).1 f
                          (laws.opened-time s₁ f ∙ h)),
                  λ a.
                      store-route got.1.streams got.0.0 b b' there refl refl a
                      ∙ route-same received.same a,
                )
        ]
      where
        received : Received (receiver sys w fd (sys.recvfrom s fd).0.1)
        received = receiver-Received
