-- ===== src/Rtcp/Removal.antt =====
-- `removeSource` of RtcpWorker.cpp, on the tables of streams.
use str_manager.Prelude.{◌≡◌, refl, ◌∙◌, none, some, [], arith, if◌then◌else◌}
use str_manager.Int.{pos, ℤ, ◌==◌, inc, inc-ne}
use str_manager.Run.{Returns}
use str_manager.System.{System, SockAddr}
use str_manager.Udp
use str_manager.Udp.{UdpStream, sock_addr_cmp}
use str_manager.StreamList.{StreamList, get_source_port}
use str_manager.Streams.{Streams}
use str_manager.Streams.Views.{list_at, route, remove_stream_list-Unlinked}
use str_manager.Streams.Routing.{IsLinked}
use str_manager.Worker.{Worker}
use str_manager.Rtcp.{remove_source, remove_socket}
use str_manager.Rtcp.Pairs.{both_read, both_read_same, first_read, second_read}

-- Neither list of the pair is there, and all other lists and routes are as before.
pub record Parted (st st' : Streams) (id : ℤ) (u u2 : UdpStream) : Type 0 where
  pub linked : IsLinked st'
  pub lists :
      (j : ℤ)
      → list_at st' j ≡ (if j == inc id then none else if j == id then none else list_at st j)
  pub routes :
      (a : SockAddr)
      → route st' a ≡ (
          if sock_addr_cmp a u.addr then [] else if sock_addr_cmp a u2.addr then [] else route st a)

module _ {S : Type 0} (sys : System S) (w : Worker) (inv : IsLinked w.streams) (id : ℤ)
    (l l2 : StreamList) (u u2 : UdpStream) (present : list_at w.streams id ≡ some l)
    (source : l.source ≡ some u) (present2 : list_at w.streams (inc id) ≡ some l2)
    (source2 : l2.source ≡ some u2) (s : S) where
  -- The calls of `remove_socket`.
  pub remove_source-sockets : Returns (remove_source sys w id s) λ r.
      let a = remove_socket sys w.ports (pos (Udp.port_of sys u)) s in
      let b = remove_socket sys a.1 (pos (Udp.port_of sys u2)) a.2 in
      (r.0.ports ≡ b.1) × (r.1 ≡ b.2)
  unfolding remove_source get_source_port
  remove_source-sockets =
      let (st₁, ran, gone) =
        remove_stream_list-Unlinked (both_read w.streams id) id l u
          ((both_read_same w.streams id).lists id ∙ present) source in
      let (st', ran2, gone2) =
        remove_stream_list-Unlinked st₁ (inc id) l2 u2
          (gone.lists (inc id)
            ∙ ground (arith, inc-ne id, (both_read_same w.streams id).lists (inc id), present2))
          source2 in
      rw
        (
          first_read w.streams id,
          present,
          source,
          second_read w.streams id,
          present2,
          source2,
          ran,
          ran2,
        )
        (_, refl, (refl, refl))
