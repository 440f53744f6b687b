-- ===== src/Examples/Lists.antt =====
-- The theorems on stream lists and on addresses, applied to a few of them.
use str_manager.Prelude.{◌≡◌, refl, true, some, [], ◌∷◌}
use str_manager.Int.{pos}
use str_manager.Run.{ok, Returns}
use str_manager.System.{SockAddr}
use str_manager.Udp.{UdpStream}
use str_manager.StreamList.{
  StreamList, add_destination, get_destination, pop_destination, rem_destination,
}
use str_manager.StreamList.Destinations.{
  Distinct, searches_lem, rem-add_destination, add_destination-Distinct,
}
use str_manager.Streams.{Streams, conmute_stream_list}
use str_manager.Streams.Commute.{Handed, conmute_stream_list-Handed}
use str_manager.Examples.{sender, list, served_list, destination}

abbrev other : UdpStream
other = record destination { id = pos 9 }

searches_lem_example :
    (get_destination served_list (pos 8) ≡ ok (some destination))
    × (pop_destination served_list (pos 8) ≡ ok (some destination, list))
    × (rem_destination served_list (pos 8) ≡ ok (true, list))
unfolding str_manager.StreamList.Destinations.lookup str_manager.StreamList.Destinations.remove
searches_lem_example = searches_lem served_list (pos 8)

abbrev longer : StreamList
longer = record list { destinations = destination ∷ other ∷ [] }

added_lem : add_destination served_list (some other) ≡ ok (true, longer)
unfolding add_destination str_manager.StreamList.exist_destination
added_lem = refl

-- Two lists, with the identifiers 5 and 6.
abbrev target : StreamList
target = record list { list_id = pos 6; destinations = other ∷ [] }

abbrev two_lists : Streams
two_lists = record {
  management = (pos 5, some served_list) ∷ (pos 6, some target) ∷ [];
  forwarding = [];
}

conmute_stream_list-Handed_example :
    Returns
      (conmute_stream_list two_lists (pos 5) (pos 6))
      λ st'. Handed two_lists st' (pos 5) (pos 6) served_list target
unfolding str_manager.Table.value str_manager.Table.find?
conmute_stream_list-Handed_example =
    conmute_stream_list-Handed two_lists (pos 5) (pos 6) served_list target refl refl

abbrev elsewhere : SockAddr
elsewhere = record sender { sin_family = 10 }

-- A worker whose only source has the identifier 0.
abbrev zero_list : Streams
zero_list = record {
  management = (pos 0, some served_list) ∷ [];
  forwarding = (sender, pos 0) ∷ [];
}

abbrev stranger : SockAddr
stranger = record sender { sin_addr = 99 }
