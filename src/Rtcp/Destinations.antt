-- ===== src/Rtcp/Destinations.antt =====
-- `addDestination` and `removeDestination` of RtcpWorker.cpp.
use str_manager.Prelude.{◌≡◌, some, List}
use str_manager.Int.{ℤ, inc}
use str_manager.System.{System}
use str_manager.Udp
use str_manager.Udp.{UdpStream}
use str_manager.StreamList.{StreamList}
use str_manager.Streams.{Streams}
use str_manager.Streams.Views.{list_at}
use str_manager.Streams.Routing.{IsLinked}
use str_manager.Worker.{Worker}
use str_manager.Rtcp.Pairs.{both_read, Paired}

module _ (w : Worker) (inv : IsLinked w.streams) (id : ℤ) (l l2 : StreamList) (u u2 : UdpStream)
    (present : list_at w.streams id ≡ some l) (source : l.source ≡ some u)
    (present2 : list_at w.streams (inc id) ≡ some l2) (source2 : l2.source ≡ some u2) where
  -- The tables after both lists are read.
  abbrev read : Streams
  read = both_read w.streams id

  abbrev Outcome : Streams → List UdpStream → List UdpStream → Type 0
  Outcome st' ds ds2 = Paired w.streams st' id l l2 u u2 ds ds2
