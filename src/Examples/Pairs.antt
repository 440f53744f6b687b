-- ===== src/Examples/Pairs.antt =====
-- The theorems on RTCP workers, each applied to a worker with one pair of sources.
use str_manager.Prelude.{arith, ◌≡◌, refl, Bool, true, false, none, ◌&&◌, if◌then◌else◌}
use str_manager.Int.{pos}
use str_manager.Run.{ok, Returns}
use str_manager.System.Toy.{Machine, toy, opened, toy_laws}
use str_manager.Message.{rtcp}
use str_manager.Udp
use str_manager.Udp.{UdpStream}
use str_manager.StreamList
use str_manager.StreamList.{StreamList, exist_destination}
use str_manager.Streams.Views.{list_at}
use str_manager.Streams.Routing.{empty-IsLinked, IsLinked}
use str_manager.Worker
use str_manager.Worker.{Worker}
use str_manager.Worker.Lists.{extend}
use str_manager.Ports.Sockets.{listeners}
use str_manager.Rtcp.{new_list, add_socket, add_source, remove_source, add_destination_to}
use str_manager.Rtcp.Sources.{accepts}
use str_manager.Rtcp.Reopen.{Reopened, remove_source-Reopened}
use str_manager.Examples.{machine, value}

abbrev start : Worker
start = Worker.new rtcp (pos 2)

start-IsLinked : IsLinked start.streams
unfolding Worker.new
start-IsLinked = empty-IsLinked

abbrev rtp : UdpStream
rtp = Udp.make toy machine (pos 5) "host" (pos 7000)

abbrev control : UdpStream
control = Udp.make toy machine (pos 6) "host" (pos 7001)

abbrev rtp_list : StreamList
rtp_list = new_list toy (pos 5) "host" (pos 7000) machine

abbrev control_list : StreamList
control_list = new_list toy (pos 6) "host" (pos 7001) machine

-- The worker after `addSource(5, "host", 7000)`.
abbrev added : Bool × Worker × Machine
added = value (false, start, machine) (add_source toy start (pos 5) "host" (pos 7000) machine)

abbrev pair : Worker
pair = added.1

no_first : list_at start.streams (pos 5) ≡ none
unfolding Worker.new str_manager.Table.value str_manager.Table.find?
no_first = refl

no_second : list_at start.streams (pos 6) ≡ none
unfolding Worker.new str_manager.Table.value str_manager.Table.find?
no_second = refl

abbrev accepted : Bool
accepted =
    accepts toy opened toy_laws start start-IsLinked (pos 5) "host" (pos 7000) machine refl refl
      no_first no_second

-- The worker after `addDestination(5, 8, "name", 9000)`.
abbrev joined : Worker
joined = value start (add_destination_to toy pair (pos 5) (pos 8) "name" (pos 9000) added.2)

abbrev first_joined : StreamList
first_joined = record rtp_list {
  destinations = extend (Udp.make toy added.2 (pos 8) "name" (pos 9000)) rtp_list.destinations;
}

abbrev second_joined : StreamList
second_joined = record control_list {
  destinations =
      if exist_destination (pos 8) rtp_list.destinations
      then control_list.destinations
      else extend (Udp.make toy added.2 (pos 9) "name" (pos 9001)) control_list.destinations;
}

both_present :
    (exist_destination (pos 8) first_joined.destinations
      && exist_destination (pos 9) second_joined.destinations)
    ≡ true
unfolding exist_destination new_list StreamList.set_source StreamList.set_list_id StreamList.new
    Udp.make
both_present = refl

added_pair : add_source toy start (pos 5) "host" (pos 7000) machine ≡ ok (true, pair, added.2)
unfolding add_source str_manager.Streams.get_list_id_by_socket str_manager.Table.index Worker.new
    Udp.sock_addr_cmp Udp.make str_manager.Rtcp.add_socket str_manager.Ports.init_socket
    str_manager.Ports.register str_manager.Streams.add_stream_list StreamList.get_source_sock_addr
    StreamList.set_source
added_pair = refl

none_listen : listeners start.ports (pos 7000) ≡ pos 0
unfolding Worker.new str_manager.Table.value str_manager.Table.find?
none_listen = refl

opens : (add_socket toy start.ports (pos 7000) machine).0 ≡ pos 1
unfolding Worker.new add_socket str_manager.Table.index str_manager.Table.find?
    str_manager.Ports.init_socket
opens = refl

remove_source-Reopened_example :
    Returns (remove_source toy pair (pos 5) added.2) (λ r. Reopened toy 7000 r.0.ports r.1)
remove_source-Reopened_example =
    remove_source-Reopened toy opened toy_laws start start-IsLinked (pos 5) "host" 7000 machine refl
      refl no_first no_second (omega arith) none_listen opens added_pair
