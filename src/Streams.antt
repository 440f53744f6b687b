-- ===== src/Streams.antt =====
-- The stream lists of a worker: the tables `management` and `forwarding` of Worker.h with the
-- methods of Worker.cpp that keep them. A `StreamList` stands in the table at one key only, so a
-- write through its pointer is a write at that key; a null pointer in the table is `none`.
pub mod Views
pub mod Store
pub mod Routing
pub mod Unknown
pub mod Relink
pub mod Abstract
pub mod Commute
use str_manager.Prelude.{Option, none, some, Bool, []}
use str_manager.Int.{ℤ, pos}
use str_manager.Run.{Run, ok, ◌>>=◌}
use str_manager.System.{SockAddr}
use str_manager.Table
use str_manager.Table.{Table}
use str_manager.Table.Keys.{int_key}
use str_manager.Udp.{addr_key}
use str_manager.StreamList.{
  StreamList, deref, get_source_sock_addr, set_destinations, clear_destinations, get_destination,
  add_destination,
}

pub record Streams : Type 0 where
  pub management : Table ℤ (Option StreamList)
  pub forwarding : Table SockAddr ℤ

abbrev pub empty : Streams
empty = record { management = []; forwarding = [] }

unfoldable pub is_empty : Streams → Bool
is_empty st = Table.is_empty st.management

-- `management[listId]`
unfoldable pub get_stream_list : Streams → ℤ → Option StreamList × Streams
get_stream_list st id =
    let (l, management) = Table.index none id st.management in
    (l, record st { management = management })

-- `forwarding[addr]`; an unknown address is entered with the identifier 0.
unfoldable pub get_list_id_by_socket : Streams → SockAddr → ℤ × Streams
get_list_id_by_socket st addr =
    let (id, forwarding) = Table.index (pos 0) addr st.forwarding in
    (id, record st { forwarding = forwarding })

unfoldable pub get_stream_list_by_socket : Streams → SockAddr → Option StreamList × Streams
unfolding get_stream_list get_list_id_by_socket
get_stream_list_by_socket st addr =
    let (id, st₁) = get_list_id_by_socket st addr in get_stream_list st₁ id

-- A write through the pointer at `id`.
unfoldable pub store : Streams → ℤ → StreamList → Streams
store st id l = record st { management = Table.put id (some l) st.management }

unfoldable pub add_stream_list : Streams → ℤ → StreamList → Run Streams
unfolding store
add_stream_list st id l = do
  addr ← get_source_sock_addr l
  ok (record (store st id l) { forwarding = Table.put addr id st.forwarding })

unfoldable pub remove_stream_list : Streams → ℤ → Run Streams
unfolding get_stream_list
remove_stream_list st id = do
  let (l, st₁) = get_stream_list st id
  list ← deref l
  addr ← get_source_sock_addr list
  ok (record {
    management = Table.erase id st₁.management;
    forwarding = Table.erase addr st₁.forwarding;
  })

-- `b->setDestinations(a->getDestinations()); a->clearDestinations();` `a` is read again for the
-- second call, since it is the list `b` if the identifiers are the same.
unfoldable pub conmute_stream_list : Streams → ℤ → ℤ → Run Streams
unfolding get_stream_list store
conmute_stream_list st from to = do
  let (a, st₁) = get_stream_list st from
  let (b, st₂) = get_stream_list st₁ to
  b' ← deref b
  a' ← deref a
  let st₃ = store st₂ to (set_destinations b' a'.destinations)
  let (a₂, st₄) = get_stream_list st₃ from
  a₂' ← deref a₂
  ok (store st₄ from (clear_destinations a₂'))

-- `b->addDestination(a->getDestination(id));`
unfoldable pub conmute_udp_stream : Streams → ℤ → ℤ → ℤ → Run Streams
unfolding get_stream_list store
conmute_udp_stream st id from to = do
  let (a, st₁) = get_stream_list st from
  let (b, st₂) = get_stream_list st₁ to
  a' ← deref a
  u ← get_destination a' id
  b' ← deref b
  (added, b₂) ← add_destination b' u
  ok (store st₂ to b₂)
