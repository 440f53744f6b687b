-- ===== src/StreamList.antt =====
-- StreamList.h, StreamList.cpp and the data of StatsStreamList.h: a source, its destinations, and
-- the time of its last packet. A null `shared_ptr` is `none`. Iterators are positions in the list,
-- and the end iterator is the list's length. The destinations are only read through their pointers
-- once they stand in a list, so a list holds the streams themselves.
pub mod Destinations
pub mod Stats
use str_manager.Prelude.{
  ℕ, zero, suc, String, Bool, true, false, Option, none, some, List, [], ◌∷◌, ◌++◌, if◌then◌else◌,
}
use str_manager.Int.{ℤ, pos, ◌==◌}
use str_manager.Run.{Run, ok, fault, null_pointer, end_iterator, ◌>>=◌}
use str_manager.System.{SockAddr, System}
use str_manager.Udp.{UdpStream, port_of}

-- The fields that the subclass `StatsStreamList` adds.
pub record Rates : Type 0 where
  pub actual_rate : ℤ
  pub limit_rate : ℤ
  pub input_bytes : ℤ

-- `rates` is `none` in an object of class `StreamList` itself, so it is what a
-- `dynamic_pointer_cast<StatsStreamList>` asks for.
pub record StreamList : Type 0 where
  pub list_id : ℤ
  pub source : Option UdpStream
  pub destinations : List UdpStream
  pub time_stamp : ℕ
  pub rates : Option Rates

unfoldable pub set_list_id : StreamList → ℤ → StreamList
set_list_id l id = record l { list_id = id }

unfoldable pub clear_destinations : StreamList → StreamList
clear_destinations l = record l { destinations = [] }

unfoldable pub clear : StreamList → StreamList
unfolding set_list_id clear_destinations
clear l = clear_destinations (set_list_id l (pos 0))

-- `StreamList()`: the time stamp is not set.
unfoldable pub new : {S : Type 0} → System S → S → StreamList
unfolding clear
new sys s = clear (record {
  list_id = pos 0;
  source = none;
  destinations = [];
  time_stamp = sys.stale_time s;
  rates = none;
})

unfoldable pub set_source : StreamList → Option UdpStream → StreamList
set_source l u = record l { source = u }

unfoldable pub rem_source : StreamList → StreamList
rem_source l = record l { source = none }

-- `p->`
abbrev pub deref : {A : Type 0} → Option A → Run A
deref none = fault null_pointer
deref (some a) = ok a

unfoldable pub get_source_sock_addr : StreamList → Run SockAddr
get_source_sock_addr l = do source ← deref l.source; ok source.addr

unfoldable pub get_source_port : {S : Type 0} → System S → StreamList → Run ℕ
get_source_port sys l = do source ← deref l.source; ok (port_of sys source)

unfoldable pub find_destination : ℤ → List UdpStream → ℕ
find_destination id [] = 0
find_destination id (u ∷ us) = if u.id == id then 0 else suc (find_destination id us)

unfoldable pub exist_destination : ℤ → List UdpStream → Bool
exist_destination id [] = false
exist_destination id (u ∷ us) = if u.id == id then true else exist_destination id us

-- `*it`
unfoldable pub at : List UdpStream → ℕ → Run UdpStream
at [] it = fault end_iterator
at (u ∷ us) zero = ok u
at (u ∷ us) (suc it) = at us it

-- `destinations.erase(it)`, after `*it` has been read.
unfoldable pub erase_at : List UdpStream → ℕ → List UdpStream
erase_at [] it = []
erase_at (u ∷ us) zero = us
erase_at (u ∷ us) (suc it) = u ∷ erase_at us it

unfoldable pub add_destination : StreamList → Option UdpStream → Run (Bool × StreamList)
add_destination l destination = do
  u ← deref destination
  if exist_destination u.id l.destinations
      then ok (false, l)
      else ok (true, record l { destinations = l.destinations ++ u ∷ [] })

unfoldable pub get_destination : StreamList → ℤ → Run (Option UdpStream)
get_destination l id = do
  u ← at l.destinations (find_destination id l.destinations)
  if u.id == id then ok (some u) else ok none

unfoldable pub pop_destination : StreamList → ℤ → Run (Option UdpStream × StreamList)
pop_destination l id = do
  let it = find_destination id l.destinations
  u ← at l.destinations it
  if u.id == id
      then ok (some u, record l { destinations = erase_at l.destinations it })
      else ok (none, l)

unfoldable pub rem_destination : StreamList → ℤ → Run (Bool × StreamList)
rem_destination l id = do
  let it = find_destination id l.destinations
  u ← at l.destinations it
  if u.id == id
      then ok (true, record l { destinations = erase_at l.destinations it })
      else ok (false, l)

unfoldable pub set_destinations : StreamList → List UdpStream → StreamList
set_destinations l us = record l { destinations = us }

unfoldable pub update_time_stamp : {S : Type 0} → System S → StreamList → S → StreamList × S
update_time_stamp sys l s = let (now, s') = sys.time s in (record l { time_stamp = now }, s')
