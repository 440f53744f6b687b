-- ===== src/Manager/Changes.antt =====
-- The changes that the calls of the manager are made of, and `getWorker`, on a well formed pool.
use str_manager.Prelude.{
  ℕ, zero, suc, ◌≤◌, ◌<◌, ◌≡◌, Bool, true, Option, some, List, [], ◌∷◌, ◌++◌, arith, Bool-cases,
  Option-cases, inl, inr, ◌&&◌, get_elem?,
}
use str_manager.Int.{ℤ, pos, ==_iff}
use str_manager.Table.Keys.{int_key}
use str_manager.Table.Laws.{find?-put}
use str_manager.Table.Totals.{put-Distinct}
use str_manager.Worker
use str_manager.Worker.{Worker, launch, has_port, is_worker_type}
use str_manager.Manager.{
  Manager, Ptr, WorkerTable, create_worker, first_worker, get_worker_by_type,
  get_worker_by_port_type, get_worker, write, save,
}
use str_manager.Manager.Pool.{
  IsPool, limit, is_there, put-AllBelow, get_elem?-set, get_elem?-append, get_elem?-length,
}

pub limit_bounds : (k : ℕ) → (k ≤ limit k) × (0 < limit k)
limit_bounds zero = omega arith
limit_bounds (suc k) = omega arith

-- What a scan finds is a worker that passes the test.
pub first_worker-passes :
    (test : Worker → Bool) (heap : List Worker) (t : WorkerTable) {p : Ptr}
    → first_worker test heap t ≡ some p
    → (w : Worker) × (get_elem? heap p ≡ some w) × (test w ≡ true)
unfolding first_worker
first_worker-passes test heap [] e = cc
first_worker-passes test heap (x ∷ t) e = elim (Option-cases (get_elem? heap x.1)) [
  | inl dangling ↦ first_worker-passes test heap t (ground arith)
  | inr (w, there) ↦ elim (Bool-cases (test w)) [
    | inl passes ↦ (w, ground arith, passes)
    | inr fails ↦ first_worker-passes test heap t (ground arith)
  ]
]

module _ {k : ℕ} {m : Manager} (inv : IsPool k m) where
  -- A worker may change in place, as long as its identifier stays.
  pub write-IsPool :
      (p : Ptr) (w w' : Worker)
      → get_elem? m.heap p ≡ some w
      → w'.worker_id ≡ w.worker_id
      → IsPool k (write m p w')
  unfolding write
  write-IsPool p w w' there same = record {
    current = inv.current;
    numbered = λ q.
        rw (get_elem?-set m.heap p q w' there) (ground (arith, inv.numbered q, inv.numbered p));
    entered = λ id q e. rw (get_elem?-set m.heap p q w' there) (ground (arith, inv.entered id q));
    owned = λ src q e. rw (get_elem?-set m.heap p q w' there) (ground (arith, inv.owned src q));
    distinct = inv.distinct;
    listed = inv.listed;
  }

  -- A new worker takes the current identifier.
  pub append-IsPool :
      (w : Worker)
      → w.worker_id ≡ pos m.current_worker_id
      → IsPool k (record m { heap = m.heap ++ w ∷ [] })
  append-IsPool w same = record {
    current = inv.current;
    numbered = λ q. rw (get_elem?-append m.heap q w) (ground (arith, inv.numbered q, inv.current));
    entered = λ id q e.
        rw (get_elem?-append m.heap q w)
          (ground (arith, inv.entered id q, get_elem?-length m.heap));
    owned = λ src q e.
        rw (get_elem?-append m.heap q w) (ground (arith, inv.owned src q, get_elem?-length m.heap));
    distinct = inv.distinct;
    listed = inv.listed;
  }

  -- Saving a source enters its worker under the worker's identifier, and moves the current one on.
  pub save-IsPool :
      (src_id : ℤ) (p : Ptr) (w : Worker)
      → get_elem? m.heap p ≡ some w
      → IsPool k (save k m src_id p w)
  unfolding save
  save-IsPool src_id p w there = record {
    current = ground (arith, limit_bounds k);
    numbered = inv.numbered;
    entered = λ id q e. ground (
      arith,
      find?-put w.worker_id id p m.worker_id_worker,
      inv.entered id q,
      ==_iff id w.worker_id,
      ==_iff w.worker_id id,
      there,
    );
    owned =
        λ src q e. ground (arith, find?-put src_id src p m.src_id_worker, inv.owned src q, there);
    distinct = put-Distinct w.worker_id p m.worker_id_worker inv.distinct;
    listed =
        put-AllBelow (limit k) w.worker_id p m.worker_id_worker
          (ground (arith, inv.numbered p, there)) inv.listed;
  }

-- The manager after `getWorker`, and the worker at the pointer it returns.
pub record Got (k : ℕ) (r : Option Ptr × Manager) : Type 0 where
  pub pool : IsPool k r.1
  pub there : (p : Ptr) → r.0 ≡ some p → is_there (get_elem? r.1.heap p) ≡ true

is_there-passes :
    (test : Worker → Bool) (heap : List Worker) (p : Ptr)
    → ((w : Worker) × (get_elem? heap p ≡ some w) × (test w ≡ true))
    → is_there (get_elem? heap p) ≡ true
is_there-passes test heap p (w, there, passes) = ground arith

pub found-there :
    (m : Manager) (port type : ℤ) (p : Ptr)
    → get_worker_by_port_type m port type ≡ some p
    → is_there (get_elem? m.heap p) ≡ true
unfolding get_worker_by_port_type get_worker_by_type
found-there m port type p e = elim (Option-cases (first_worker both m.heap m.worker_id_worker)) [
  | inl missing ↦
      is_there-passes _ _ p (first_worker-passes of_type m.heap m.worker_id_worker (ground arith))
  | inr (q, found) ↦
      is_there-passes _ _ p (first_worker-passes both m.heap m.worker_id_worker (ground arith))
]
  where
    of_type : Worker → Bool
    of_type = λ w. is_worker_type w type

    both : Worker → Bool
    both = λ w. has_port w port && is_worker_type w type

pub created-id :
    (m : Manager) (type : ℤ) {w : Worker}
    → create_worker m type ≡ some w
    → w.worker_id ≡ pos m.current_worker_id
unfolding create_worker Worker.new Worker.base Worker.set_worker_type
created-id m type e = ground arith

pub get_worker-Got :
    {k : ℕ} {m : Manager} → IsPool k m → (type port : ℤ) → Got k (get_worker m type port)
unfolding get_worker launch
get_worker-Got {m} inv type port = elim (Option-cases (get_worker_by_port_type m port type)) [
  | inr (p, found) ↦
      rw (found, get_worker)
        (record { pool = inv; there = λ q e. ground (arith, found-there m port type p found) })
  | inl missing ↦ elim (Option-cases (create_worker m type)) [
    | inl unknown ↦
        rw (missing, get_worker)
          (rw (unknown, get_worker) (record { pool = inv; there = λ q e. cc }))
    | inr (w, made) ↦
        rw (missing, get_worker)
          (rw (made, get_worker)
            (record {
              pool = append-IsPool inv (launch w) (created-id m type made);
              there = λ q e. rw (get_elem?-append m.heap q (launch w)) (ground arith);
            }))
  ]
]
