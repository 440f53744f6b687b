-- ===== src/Worker/Displaced.antt =====
-- `addSource` of Worker.cpp with the identifier of a list that the worker has. Neither the worker nor
-- the manager tests for one.
use str_manager.Prelude.{◌≡◌, refl, inl, inr, String, Bool, true, some, Bool-cases}
use str_manager.Int.{ℤ, negsuc, ◌==◌, truthy}
use str_manager.Run.{Returns}
use str_manager.System.{System}
use str_manager.Udp
use str_manager.Udp.{UdpStream}
use str_manager.StreamList.{StreamList, set_list_id, set_source}
use str_manager.Ports.{add_socket}
use str_manager.Streams.{get_list_id_by_socket}
use str_manager.Streams.Views.{Linked, get_list_id_lem, add_stream_list-Linked, same-Linked}
use str_manager.Worker.{Worker, add_source_with}

module _ {S : Type 0} (sys : System S) (w : Worker) (s : S) (src_id : ℤ) (ip : String) (port : ℤ)
    (fresh : StreamList) where
  -- The source and the list that `addSource` makes.
  abbrev source : UdpStream
  source = Udp.make sys s src_id ip port

  abbrev pub entered_list : StreamList
  entered_list = record fresh { list_id = src_id; source = some source }

  -- The decision of `addSource`.
  pub record Decided (r : Bool × Worker × S) : Type 0 where
    pub class_same : r.1.class ≡ w.class
    pub entered : r.0 ≡ true → Linked w.streams r.1.streams src_id entered_list source.addr

  pub add_source_with-Decided : Returns (add_source_with sys w src_id ip port fresh s) Decided
  unfolding add_source_with set_list_id set_source
  add_source_with-Decided =
      elim (Bool-cases (truthy (get_list_id_by_socket w.streams source.addr).0)) [
        | inl known ↦ rw known (_, refl, record { class_same = refl; entered = λ yea. cc })
        | inr new ↦ elim (Bool-cases ((add_socket sys w.ports port s).0 == negsuc 0)) [
          | inl failed ↦
              rw (new, failed) (_, refl, record { class_same = refl; entered = λ yea. cc })
          | inr opens ↦
              let (read, same) = get_list_id_lem w.streams source.addr in
              let (st', ran, linked) =
                add_stream_list-Linked (get_list_id_by_socket w.streams source.addr).1 src_id
                  entered_list source refl in
              rw (new, opens, ran)
                (_, refl, record { class_same = refl; entered = λ yea. same-Linked same linked })
        ]
      ]
