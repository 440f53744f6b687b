-- ===== src/Manager.antt =====
-- Manager.h and Manager.cpp: the manager owns the workers. A `Worker*` is a position in `heap`, the
-- sequence of all workers ever made, which are never deleted; a null pointer is `none`. `queue`
-- holds the messages that workers have sent and the handler has not received, the oldest first.
pub mod Dispatch
pub mod Identity
pub mod Pool
pub mod Changes
pub mod Calls
pub mod Reach
pub mod Lookup
pub mod Sound
pub mod Handler
pub mod Book
use str_manager.Prelude.{
  ℕ, zero, suc, ◌+◌, String, Bool, true, false, Option, none, some, List, [], ◌∷◌, ◌++◌, ◌&&◌, leb,
  if◌then◌else◌, get_elem?, set, length,
}
use str_manager.Int.{ℤ, pos, negsuc, ◌==◌}
use str_manager.Run.{Run, ok, ◌>>=◌}
use str_manager.System.{System}
use str_manager.Message.{
  Message, Class, forward, rtcp, stats, fwd_worker_type, rtcp_worker_type, stats_worker_type,
}
use str_manager.Table
use str_manager.Table.{Table}
use str_manager.Table.Keys.{int_key}
use str_manager.StreamList.{deref}
use str_manager.Worker
use str_manager.Worker.{Worker, launch, is_worker_type, has_port}
use Dispatch.{add_source_of, remove_source_of, add_destination_of, remove_destination_of}

abbrev pub Ptr : Type 0
Ptr = ℕ

abbrev pub WorkerTable : Type 0
WorkerTable = Table ℤ Ptr

-- `currentWorkerId` never falls below 0.
pub record Manager : Type 0 where
  pub current_worker_id : ℕ
  pub src_id_worker : WorkerTable
  pub worker_id_worker : WorkerTable
  pub is_listening_messages : Bool
  pub heap : List Worker
  pub queue : List Message

unfoldable pub new : Manager
new = record {
  current_worker_id = 0;
  src_id_worker = [];
  worker_id_worker = [];
  is_listening_messages = true;
  heap = [];
  queue = [];
}

unfoldable pub create_worker : Manager → ℤ → Option Worker
create_worker m type =
    let id = pos m.current_worker_id in
    if type == fwd_worker_type
    then some (Worker.new forward id)
    else if type == rtcp_worker_type
    then some (Worker.new rtcp id)
    else if type == stats_worker_type
    then some (Worker.new stats id)
    else none

-- The first entry, in the order of iteration, whose worker passes the test.
unfoldable pub first_worker : (Worker → Bool) → List Worker → WorkerTable → Option Ptr
first_worker test heap [] = none
first_worker test heap (e ∷ es) =
    let rest = first_worker test heap es in
    elim (get_elem? heap e.1) [ none ↦ rest | some w ↦ if test w then some e.1 else rest ]

unfoldable pub get_worker_by_type : Manager → ℤ → Option Ptr
get_worker_by_type m type = first_worker (λ w. is_worker_type w type) m.heap m.worker_id_worker

unfoldable pub get_worker_by_port_type : Manager → ℤ → ℤ → Option Ptr
unfolding get_worker_by_type
get_worker_by_port_type m port type =
    elim (first_worker (λ w. has_port w port && is_worker_type w type) m.heap m.worker_id_worker) [
      | none ↦ get_worker_by_type m type
      | some p ↦ some p
    ]

unfoldable pub get_worker_by_id : Manager → ℤ → Option Ptr
get_worker_by_id m id = Table.find? id m.worker_id_worker

-- The worker for a type and a port, made and started if there is none of the type.
unfoldable pub get_worker : Manager → ℤ → ℤ → Option Ptr × Manager
get_worker m type port = elim (get_worker_by_port_type m port type) [
  | some p ↦ (some p, m)
  | none ↦ elim (create_worker m type) [
    | none ↦ (none, m)
    | some w ↦ (some (length m.heap), record m { heap = m.heap ++ launch w ∷ [] })
  ]
]

-- A write through a worker's pointer.
unfoldable pub write : Manager → Ptr → Worker → Manager
write m p w = record m { heap = set m.heap p w }

-- What `addSource` does with the worker that has accepted the source.
unfoldable pub save : ℕ → Manager → ℤ → Ptr → Worker → Manager
save max_workers m src_id p w = record m {
  src_id_worker = Table.put src_id p m.src_id_worker;
  worker_id_worker = Table.put w.worker_id p m.worker_id_worker;
  current_worker_id =
      if leb max_workers (m.current_worker_id + 1) then 0 else m.current_worker_id + 1;
}

-- One round of `messageHandler`: a message of type 100 drops its sender from the pool.
unfoldable pub handle_message : Manager → Manager
handle_message m = elim m.queue [
  | [] ↦ m
  | message ∷ rest ↦
      let received : Manager = record m { queue = rest } in
      if message.type == pos 100
      then record received { worker_id_worker = Table.erase message.from m.worker_id_worker }
      else received
]

module _ {S : Type 0} (sys : System S) where
  -- 0, or -1 on an error. `max_workers` is the number of processors.
  unfoldable pub add_source : ℕ → Manager → ℤ → ℤ → String → ℤ → S → Run (ℤ × Manager × S)
  add_source max_workers m type src_id ip port s =
      let (ptr, m₁) = get_worker m type port in
      elim ptr [
        | none ↦ ok (negsuc 0, m₁, s)
        | some p ↦ do
          w ← deref (get_elem? m₁.heap p)
          (accepted, w', s') ← add_source_of sys w src_id ip port s
          ok (
              if accepted
              then (pos 0, save max_workers (write m₁ p w') src_id p w', s')
              else (negsuc 0, write m₁ p w', s'))
      ]

  unfoldable pub remove_source : Manager → ℤ → S → Run (ℤ × Manager × S)
  remove_source m src_id s = elim (Table.find? src_id m.src_id_worker) [
    | none ↦ ok (negsuc 0, m, s)
    | some p ↦ do
      w ← deref (get_elem? m.heap p)
      (w', sent, s') ← remove_source_of sys w src_id s
      ok (
        pos 0,
        record (write m p w') {
          src_id_worker = Table.erase src_id m.src_id_worker;
          queue = m.queue ++ sent;
        },
        s',
      )
  ]

  unfoldable pub add_destination : Manager → ℤ → ℤ → String → ℤ → S → Run (ℤ × Manager)
  add_destination m src_id dest_id ip port s = elim (Table.find? src_id m.src_id_worker) [
    | none ↦ ok (negsuc 0, m)
    | some p ↦ do
      w ← deref (get_elem? m.heap p)
      w' ← add_destination_of sys w src_id dest_id ip port s
      ok (pos 0, write m p w')
  ]

unfoldable pub remove_destination : Manager → ℤ → ℤ → Run (ℤ × Manager)
remove_destination m src_id dest_id = elim (Table.find? src_id m.src_id_worker) [
  | none ↦ ok (negsuc 0, m)
  | some p ↦ do
    w ← deref (get_elem? m.heap p)
    w' ← remove_destination_of w src_id dest_id
    ok (pos 0, write m p w')
]

-- The time of the last packet, or the time now if the source is unknown.
unfoldable pub read_time_stamp : {S : Type 0} → System S → Manager → ℤ → S → Run (ℕ × Manager × S)
read_time_stamp sys m src_id s = elim (Table.find? src_id m.src_id_worker) [
  | none ↦ let (now, s') = sys.time s in ok (now, m, s')
  | some p ↦ do
    w ← deref (get_elem? m.heap p)
    (stamp, w') ← Worker.read_time_stamp w src_id
    ok (stamp, write m p w', s)
]
