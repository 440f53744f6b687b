-- ===== src/Streams/Unknown.antt =====
-- What `getStreamListBySocket` of Worker.cpp gives for an address that `forwarding` does not hold.
use str_manager.Prelude.{◌≡◌, ap, ◌∙◌, none}
use str_manager.Int.{pos}
use str_manager.System.{SockAddr}
use str_manager.Table.{find?}
use str_manager.Table.Laws.{value_lem}
use str_manager.Udp.{addr_key}
use str_manager.Streams.{Streams, get_stream_list_by_socket}
use str_manager.Streams.Views.{list_at, id_at, targets, route, get_by_socket_lem}

module _ (st : Streams) (addr : SockAddr) (unknown : find? addr st.forwarding ≡ none) where
  id_at-zero : id_at st addr ≡ pos 0
  id_at-zero = value_lem (pos 0) addr st.forwarding ∙ rw unknown

  -- An address that `forwarding` does not hold leads to the list with the identifier 0, if there is
  -- one: the search for the address gives that list, and packets from it take that list's route.
  pub get_stream_list_by_socket-list_at :
      ((get_stream_list_by_socket st addr).0 ≡ list_at st (pos 0))
      × (route st addr ≡ targets (list_at st (pos 0)))
  unfolding route
  get_stream_list_by_socket-list_at = (
    (get_by_socket_lem st addr).0 ∙ ap (list_at st) id_at-zero,
    ap (λ i. targets (list_at st i)) id_at-zero,
  )
