-- ===== src/Manager/Reach.antt =====
-- The executions of the manager: its calls, the rounds of `messageHandler` and the threads of the
-- workers in any order. A worker's thread works on the worker alone, and may send messages.
use str_manager.Prelude.{ℕ, ◌≤◌, ◌≡◌, refl, String, some, List, ◌++◌, get_elem?, length}
use str_manager.Int.{ℤ}
use str_manager.Run.{ok}
use str_manager.System.{System}
use str_manager.Message.{Message}
use str_manager.Table
use str_manager.Worker.{Worker}
use str_manager.Manager.{
  Manager, Ptr, new, write, handle_message, add_source, remove_source, add_destination,
  remove_destination, read_time_stamp,
}
use str_manager.Manager.Identity.{SameIdentity}
use str_manager.Manager.Pool.{IsPool, limit, length-le}
use str_manager.Manager.Changes.{limit_bounds}
use str_manager.Manager.Calls.{
  thread-IsPool, handle_message-IsPool, add_source-IsPool, remove_source-IsPool,
  add_destination-IsPool, remove_destination-IsPool, read_time_stamp-IsPool,
}

module _ {S : Type 0} (sys : System S) (max_workers : ℕ) where
  -- One step of an execution. The state of the system is whatever the other threads left.
  pub data Step : Manager → Manager → Type 0 where
    source_added :
        {m m' : Manager} (type src_id : ℤ) (ip : String) (port : ℤ) (s : S) {r : ℤ} {s' : S}
        → add_source sys max_workers m type src_id ip port s ≡ ok (r, m', s')
        → Step m m'
    source_removed :
        {m m' : Manager} (src_id : ℤ) (s : S) {r : ℤ} {s' : S}
        → remove_source sys m src_id s ≡ ok (r, m', s')
        → Step m m'
    destination_added :
        {m m' : Manager} (src_id dest_id : ℤ) (ip : String) (port : ℤ) (s : S) {r : ℤ}
        → add_destination sys m src_id dest_id ip port s ≡ ok (r, m')
        → Step m m'
    destination_removed :
        {m m' : Manager} (src_id dest_id : ℤ) {r : ℤ}
        → remove_destination m src_id dest_id ≡ ok (r, m')
        → Step m m'
    stamp_read :
        {m m' : Manager} (src_id : ℤ) (s : S) {stamp : ℕ} {s' : S}
        → read_time_stamp sys m src_id s ≡ ok (stamp, m', s')
        → Step m m'
    message_handled : {m : Manager} → Step m (handle_message m)
    worker_ran :
        {m : Manager} (p : Ptr) (w w' : Worker) (sent : List Message)
        → get_elem? m.heap p ≡ some w
        → SameIdentity w w'
        → Step m (record (write m p w') { queue = m.queue ++ sent })

  pub data Reach : Manager → Type 0 where
    created : Reach new
    stepped : {m m' : Manager} → Reach m → Step m m' → Reach m'

  Step-IsPool : {m m' : Manager} → IsPool max_workers m → Step m m' → IsPool max_workers m'
  Step-IsPool inv (source_added type src_id ip port s e) =
      add_source-IsPool sys inv type src_id ip port s e
  Step-IsPool inv (source_removed src_id s e) = remove_source-IsPool sys inv src_id s e
  Step-IsPool inv (destination_added src_id dest_id ip port s e) =
      add_destination-IsPool sys inv src_id dest_id ip port s e
  Step-IsPool inv (destination_removed src_id dest_id e) =
      remove_destination-IsPool inv src_id dest_id e
  Step-IsPool inv (stamp_read src_id s e) = read_time_stamp-IsPool sys inv src_id s e
  Step-IsPool inv message_handled = handle_message-IsPool inv
  Step-IsPool {m} inv (worker_ran p w w' sent there same) =
      thread-IsPool inv p w w' (m.queue ++ sent) there same

  new-IsPool : IsPool max_workers new
  unfolding new Table.find?
  new-IsPool = record {
    current = (limit_bounds max_workers).1;
    numbered = λ p. refl;
    entered = λ id p e. cc;
    owned = λ src p e. cc;
    distinct = tt;
    listed = tt;
  }

  -- In every execution the pool is well formed: the current identifier and those of all workers are
  -- below the limit, each entry of the pool leads to a worker with the entry's identifier, no
  -- identifier stands twice in it, and each source leads to a worker.
  pub Reach-IsPool : {m : Manager} → Reach m → IsPool max_workers m
  Reach-IsPool created = new-IsPool
  Reach-IsPool (stepped reached step) = Step-IsPool (Reach-IsPool reached) step

  -- In every execution the pool holds as many workers as there are processors at most, or one if the
  -- number of processors is 0.
  pub pool_size : {m : Manager} → Reach m → length m.worker_id_worker ≤ limit max_workers
  pool_size {m} reached = length-le (limit max_workers) m.worker_id_worker inv.distinct inv.listed
    where
      inv : IsPool max_workers m
      inv = Reach-IsPool reached
