-- ===== src/Worker/Loop/Counting.antt =====
-- What `StatsWorker::process` does with a packet, against the routes and the byte counts.
use str_manager.Prelude.{
  ℕ, ◌+◌, ◌%◌, ◌≡◌, refl, ap, sym, ◌∙◌, Option, none, some, List, Bool, true, false, arith, inl,
  inr, Bool-cases, Option-cases, if◌then◌else◌,
}
use str_manager.Prelude
use str_manager.Int.{ℤ, ==_iff, to_u32, to_s32}
use str_manager.System.{System, SystemLaws, SockAddr}
use str_manager.Streams.{store}
use str_manager.Streams.Store.{store-route}
use str_manager.Streams.Views.{list_at, id_at, route}
use str_manager.Streams.Store.{store-lists}
use str_manager.Streams.Routing.{route-same}
use str_manager.StreamList.{StreamList, Rates}
use str_manager.StreamList.Stats.{update_input_bytes}
use str_manager.Ports.Sockets.{port_of}
use str_manager.Worker.{Worker}
use str_manager.Worker.Valid.{IsValid}
use str_manager.Worker.Loop.{receiver, stats_process}
use str_manager.Worker.Loop.Packets.{
  send_each, send_to_all-each, send_to_all-StillOpen, sender, rlen, list_of_sender, Received,
  receiver-Received, stored-IsValid,
}

module _ {S : Type 0} (sys : System S) (opened : S → ℤ → Bool) (laws : SystemLaws sys opened)
    {w : Worker} {s : S} (valid : IsValid sys opened w s) (fd port : ℤ)
    (registered : port_of w.ports fd ≡ some port) (b : StreamList) (r : Rates)
    (known : list_of_sender sys opened laws valid fd port registered ≡ some b)
    (measured : b.rates ≡ some r) where
  abbrev from : SockAddr
  from = sender sys opened laws valid fd port registered

  abbrev bytes : ℕ
  bytes = rlen sys opened laws valid fd port registered

  -- On a well formed statistics worker, a packet of some length from a known source is sent along its route and counted for the worker and for its list,
  -- on 32 bits. The time stamp of the list stays, the worker stays well formed, and no route changes.
  pub stats_process-counts :
      Prelude.◌==◌ bytes 0 ≡ false
      → let p = stats_process sys w fd s in
        (p.1 ≡ send_each sys fd bytes (route w.streams from) (sys.recvfrom s fd).1)
        × IsValid sys opened p.0 p.1
        × ((a : SockAddr) → route p.0.streams a ≡ route w.streams a)
        × (p.0.input_bytes ≡ to_s32 ((to_u32 w.input_bytes + bytes) % 0x1_0000_0000))
        × (list_at p.0.streams (id_at w.streams from)
            ≡ some (record b { rates = some (update_input_bytes r (to_s32 bytes)) }))
  unfolding stats_process route
  stats_process-counts nonempty =
      let got = receiver sys w fd (sys.recvfrom s fd).0.1 in
      let s₁ = (sys.recvfrom s fd).1 in
      let b' : StreamList = record b { rates = some (update_input_bytes r (to_s32 bytes)) } in
      let there : list_at got.1.streams got.0.0 ≡ some b =
        received.same.lists got.0.0 ∙ ap (list_at w.streams) received.id ∙ known in
      rw (nonempty, received.list, known, measured)
        (
          send_to_all-each sys fd bytes b.destinations s₁,
          stored-IsValid sys received.valid' got.0.0 _ b b' there refl
              (send_to_all-StillOpen sys opened laws fd bytes b.destinations s₁),
          λ a.
              store-route got.1.streams got.0.0 b b' there refl refl a ∙ route-same received.same a,
          rw received.counted,
          ap (list_at (store got.1.streams got.0.0 b')) (sym received.id)
              ∙ store-lists got.1.streams got.0.0 b' got.0.0
              ∙ rw ((==_iff got.0.0 got.0.0).1 refl),
        )
    where
      received :
          Received sys opened laws valid fd port registered
            (receiver sys w fd (sys.recvfrom s fd).0.1)
      received = receiver-Received sys opened laws valid fd port registered
