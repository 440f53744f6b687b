-- ===== src/Worker.antt =====
-- Worker.h and Worker.cpp: a worker owns sockets and stream lists. `class` is the dynamic class of
-- the object, which also fixes the fields that the subclass `StatsWorker` adds. The mutex that each
-- method holds makes it one step, so it has no counterpart here.
pub mod Valid
pub mod Sources
pub mod Removal
pub mod Destinations
pub mod Local
pub mod Lists
pub mod Displaced
pub mod Loop
use str_manager.Prelude.{
  ℕ, String, Bool, true, false, List, [], ◌∷◌, Option, none, some, not, if◌then◌else◌,
}
use str_manager.Int.{ℤ, pos, negsuc, ◌==◌, truthy}
use str_manager.Run.{Run, ok, ◌>>=◌}
use str_manager.System.{System}
use str_manager.Message.{Message, Class, no_job, def_worker_type, type_of}
use str_manager.Ports
use str_manager.Ports.{Ports, add_socket, remove_socket}
use str_manager.Streams
use str_manager.Streams.{
  Streams, is_empty, get_stream_list, get_list_id_by_socket, add_stream_list, remove_stream_list,
  conmute_stream_list, conmute_udp_stream,
}
use str_manager.StreamList
use str_manager.StreamList.{
  StreamList, set_list_id, set_source, deref, get_source_port, add_destination, exist_destination,
  rem_destination,
}
use str_manager.Udp

pub record Worker : Type 0 where
  pub class : Class
  pub worker_id : ℤ
  pub worker_type : ℤ
  pub working : Bool
  pub launched : Bool
  pub ports : Ports
  pub streams : Streams
  pub input_bytes : ℤ
  pub output_bytes : ℤ

-- `Worker(workerId)`, and `setWorkerType` as the constructor of the class calls it.
unfoldable pub base : Class → ℤ → Worker
base class id = record {
  class = class;
  worker_id = id;
  worker_type = def_worker_type;
  working = true;
  launched = false;
  ports = Ports.empty;
  streams = Streams.empty;
  input_bytes = pos 0;
  output_bytes = pos 0;
}

unfoldable pub set_worker_type : Worker → ℤ → Worker
set_worker_type w type = record w { worker_type = type }

unfoldable pub new : Class → ℤ → Worker
unfolding base set_worker_type
new class id = set_worker_type (base class id) (type_of class)

unfoldable pub launch : Worker → Worker
launch w = record w { launched = true }

-- The loop of the thread ends before `join` returns.
unfoldable pub stop : Worker → Worker
stop w = record w { working = false }

unfoldable pub is_worker_type : Worker → ℤ → Bool
is_worker_type w type = w.worker_type == type

unfoldable pub has_port : Worker → ℤ → Bool
has_port w port = Ports.has_port w.ports port

module _ {S : Type 0} (sys : System S) where
  -- The body of `addSource`, over the list object that the class makes.
  unfoldable pub add_source_with :
      Worker → ℤ → String → ℤ → StreamList → S → Run (Bool × Worker × S)
  add_source_with w src_id ip port fresh s =
      let u = Udp.make sys s src_id ip port in
      let (known, st) = get_list_id_by_socket w.streams u.addr in
      let l = set_source (set_list_id fresh src_id) (some u) in
      let (ret, ports, s') = add_socket sys w.ports port s in
      if truthy known
      then ok (false, record w { streams = st }, s)
      else if ret == negsuc 0
      then ok (false, record w { ports = ports; streams = st }, s')
      else do
        st' ← add_stream_list st src_id l
        ok (true, record w { ports = ports; streams = st' }, s')

  -- `addSource`
  unfoldable pub add_source : Worker → ℤ → String → ℤ → S → Run (Bool × Worker × S)
  unfolding add_source_with
  add_source w src_id ip port s = add_source_with w src_id ip port (StreamList.new sys s) s

  -- `removeSource`, with the messages it sends.
  unfoldable pub remove_source : Worker → ℤ → S → Run (Worker × List Message × S)
  remove_source w src_id s = do
    let (l, st) = get_stream_list w.streams src_id
    list ← deref l
    port ← get_source_port sys list
    let (closed, ports, s') = remove_socket sys w.ports (pos port) s
    st' ← remove_stream_list st src_id
    let w' : Worker = record w { ports = ports; streams = st' }
    ok (if is_empty st' then (stop w', no_job w.worker_id ∷ [], s') else (w', [], s'))

  -- `addDestination`
  unfoldable pub add_destination_to : Worker → ℤ → ℤ → String → ℤ → S → Run Worker
  add_destination_to w src_id dest_id ip port s = do
    let u = Udp.make sys s dest_id ip port
    let (l, st) = get_stream_list w.streams src_id
    list ← deref l
    (added, list') ← add_destination list (some u)
    st' ← (if added then add_stream_list st src_id list' else ok st)
    ok (record w { streams = st' })

-- `removeDestination`
unfoldable pub remove_destination : Worker → ℤ → ℤ → Run Worker
remove_destination w src_id dest_id = do
  let (l, st) = get_stream_list w.streams src_id
  list ← deref l
  let removal = do (removed, list') ← rem_destination list dest_id; add_stream_list st src_id list'
  st' ← (if exist_destination dest_id list.destinations then removal else ok st)
  ok (record w { streams = st' })

unfoldable pub conmute_lists : Worker → ℤ → ℤ → Run Worker
conmute_lists w from to = do
  st ← conmute_stream_list w.streams from to
  ok (record w { streams = st })

unfoldable pub conmute_stream : Worker → ℤ → ℤ → ℤ → Run Worker
conmute_stream w id from to = do
  st ← conmute_udp_stream w.streams id from to
  ok (record w { streams = st })

-- `readTimeStamp`
unfoldable pub read_time_stamp : Worker → ℤ → Run (ℕ × Worker)
read_time_stamp w src_id = do
  let (l, st) = get_stream_list w.streams src_id
  list ← deref l
  ok (list.time_stamp, record w { streams = st })
