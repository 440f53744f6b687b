-- ===== src/Manager/Calls.antt =====
-- The calls of the manager and the rounds of the message handler, on a well formed pool.
use str_manager.Prelude.{
  ℕ, ◌≡◌, ◌⊎◌, refl, ◌++◌, subst, String, Bool, Option, none, some, List, [], ◌∷◌, arith,
  Bool-cases, Option-cases, inl, inr, get_elem?,
}
use str_manager.Int.{ℤ, pos, ◌==◌}
use str_manager.Run.{ok, Run-cases}
use str_manager.System.{System}
use str_manager.Message.{Message}
use str_manager.Table.{find?, erase}
use str_manager.Table.Keys.{int_key}
use str_manager.Table.Laws.{find?-erase}
use str_manager.Table.Totals.{erase-Distinct}
use str_manager.StreamList.{deref}
use str_manager.Worker
use str_manager.Worker.{Worker}
use str_manager.Manager.{
  Manager, Ptr, get_worker, write, handle_message, add_source, remove_source, add_destination,
  remove_destination, read_time_stamp,
}
use str_manager.Manager.Dispatch.{
  add_source_of, remove_source_of, add_destination_of, remove_destination_of,
}
use str_manager.Manager.Identity.{
  SameIdentity, add_source_of-id, remove_source_of-id, add_destination_of-id,
  remove_destination_of-id,
}
use str_manager.Manager.Pool.{IsPool, get_elem?-set, erase-listed, limit}
use str_manager.Manager.Changes.{write-IsPool, save-IsPool, Got, get_worker-Got}

deref-there : {A : Type 0} (o : Option A) (a : A) → deref o ≡ ok a → o ≡ some a
deref-there none a e = cc
deref-there (some x) a e = ground arith

set-there :
    (m : Manager) (p : Ptr) (w w' : Worker)
    → get_elem? m.heap p ≡ some w
    → get_elem? (write m p w').heap p ≡ some w'
unfolding write
set-there m p w w' there = rw (get_elem?-set m.heap p p w' there) (ground arith)

List-cases : {A : Type 0} (xs : List A) → (xs ≡ []) ⊎ ((x : A) × (rest : List A) × (xs ≡ x ∷ rest))
List-cases [] = inl refl
List-cases (x ∷ xs) = inr (x, xs, refl)

module _ {k : ℕ} {m : Manager} (inv : IsPool k m) where
  -- Forgetting a source.
  pub forget-IsPool :
      (src_id : ℤ) → IsPool k (record m { src_id_worker = erase src_id m.src_id_worker })
  forget-IsPool src_id = record {
    current = inv.current;
    numbered = inv.numbered;
    entered = inv.entered;
    owned = λ src q e. ground (arith, find?-erase src_id src m.src_id_worker, inv.owned src q);
    distinct = inv.distinct;
    listed = inv.listed;
  }

  -- Dropping a worker from the pool.
  drop-IsPool :
      (q : List Message) (id : ℤ)
      → IsPool k (record m { queue = q; worker_id_worker = erase id m.worker_id_worker })
  drop-IsPool q id = record {
    current = inv.current;
    numbered = inv.numbered;
    entered = λ i p e. ground (arith, find?-erase id i m.worker_id_worker, inv.entered i p);
    owned = inv.owned;
    distinct = erase-Distinct id m.worker_id_worker inv.distinct;
    listed = erase-listed (limit k) id m.worker_id_worker inv.listed;
  }

  -- The queue is no part of the pool.
  queue-IsPool : (q : List Message) → IsPool k (record m { queue = q })
  queue-IsPool q = record {
    current = inv.current;
    numbered = inv.numbered;
    entered = inv.entered;
    owned = inv.owned;
    distinct = inv.distinct;
    listed = inv.listed;
  }

  -- A worker's own thread may change its worker, and send messages.
  pub thread-IsPool :
      (p : Ptr) (w w' : Worker) (q : List Message)
      → get_elem? m.heap p ≡ some w
      → SameIdentity w w'
      → IsPool k (record (write m p w') { queue = q })
  thread-IsPool p w w' q there same = write-queue (write-IsPool inv p w w' there same.id_same)
    where
      write-queue : IsPool k (write m p w') → IsPool k (record (write m p w') { queue = q })
      write-queue i = record {
        current = i.current;
        numbered = i.numbered;
        entered = i.entered;
        owned = i.owned;
        distinct = i.distinct;
        listed = i.listed;
      }

pub handle_message-IsPool : {k : ℕ} {m : Manager} → IsPool k m → IsPool k (handle_message m)
unfolding handle_message
handle_message-IsPool {m} inv = elim (List-cases m.queue) [
  | inl none_sent ↦ rw (none_sent, handle_message) inv
  | inr (message, rest, sent) ↦ elim (Bool-cases (message.type == pos 100)) [
    | inl finished ↦
        rw (sent, handle_message)
          (rw (finished, handle_message) (drop-IsPool inv rest message.from))
    | inr other ↦ rw (sent, handle_message) (rw (other, handle_message) (queue-IsPool inv rest))
  ]
]

read_time_stamp-id :
    (w : Worker) (src_id : ℤ) {stamp : ℕ} {w' : Worker}
    → Worker.read_time_stamp w src_id ≡ ok (stamp, w')
    → w'.worker_id ≡ w.worker_id
unfolding Worker.read_time_stamp
read_time_stamp-id w src_id e = ground arith

module _ {S : Type 0} (sys : System S) {k : ℕ} {m : Manager} (inv : IsPool k m) where
  pub remove_source-IsPool :
      (src_id : ℤ) (s : S) {r : ℤ} {m' : Manager} {s' : S}
      → remove_source sys m src_id s ≡ ok (r, m', s')
      → IsPool k m'
  unfolding remove_source write
  remove_source-IsPool src_id s e = elim (Option-cases (find? src_id m.src_id_worker)) [
    | inl unknown ↦ subst (IsPool k) (ground arith) inv
    | inr (p, known) ↦ elim (Option-cases (get_elem? m.heap p)) [
      | inl dangling ↦ absurd (ground (arith, inv.owned src_id p known))
      | inr (w, there) ↦ elim (Run-cases (remove_source_of sys w src_id s)) [
        | inl (failure, faulty) ↦ absurd (ground arith)
        | inr ((w', sent, s₁), ran) ↦ subst (IsPool k) (ground arith) (
            forget-IsPool
              (thread-IsPool inv p w w' (m.queue ++ sent) there
                (remove_source_of-id sys w src_id s ran))
              src_id)
      ]
    ]
  ]

  pub add_destination-IsPool :
      (src_id dest_id : ℤ) (ip : String) (port : ℤ) (s : S) {r : ℤ} {m' : Manager}
      → add_destination sys m src_id dest_id ip port s ≡ ok (r, m')
      → IsPool k m'
  unfolding add_destination
  add_destination-IsPool src_id dest_id ip port s e =
      elim (Option-cases (find? src_id m.src_id_worker)) [
        | inl unknown ↦ subst (IsPool k) (ground arith) inv
        | inr (p, known) ↦ elim (Option-cases (get_elem? m.heap p)) [
          | inl dangling ↦ absurd (ground (arith, inv.owned src_id p known))
          | inr (w, there) ↦ elim (Run-cases (add_destination_of sys w src_id dest_id ip port s)) [
            | inl (failure, faulty) ↦ absurd (ground arith)
            | inr (w', ran) ↦ subst (IsPool k) (ground arith) (
                write-IsPool inv p w w' there
                  (add_destination_of-id sys w src_id dest_id ip port s ran).id_same)
          ]
        ]
      ]

  pub read_time_stamp-IsPool :
      (src_id : ℤ) (s : S) {stamp : ℕ} {m' : Manager} {s' : S}
      → read_time_stamp sys m src_id s ≡ ok (stamp, m', s')
      → IsPool k m'
  unfolding read_time_stamp
  read_time_stamp-IsPool src_id s e = elim (Option-cases (find? src_id m.src_id_worker)) [
    | inl unknown ↦ subst (IsPool k) (ground arith) inv
    | inr (p, known) ↦ elim (Option-cases (get_elem? m.heap p)) [
      | inl dangling ↦ absurd (ground (arith, inv.owned src_id p known))
      | inr (w, there) ↦ elim (Run-cases (Worker.read_time_stamp w src_id)) [
        | inl (failure, faulty) ↦ absurd (ground arith)
        | inr ((stamp, w'), ran) ↦
            subst (IsPool k) (ground arith)
              (write-IsPool inv p w w' there (read_time_stamp-id w src_id ran))
      ]
    ]
  ]

  pub add_source-IsPool :
      (type src_id : ℤ) (ip : String) (port : ℤ) (s : S) {r : ℤ} {m' : Manager} {s' : S}
      → add_source sys k m type src_id ip port s ≡ ok (r, m', s')
      → IsPool k m'
  unfolding add_source
  add_source-IsPool type src_id ip port s e = elim (Option-cases (get_worker m type port).0) [
    | inl unknown ↦ subst (IsPool k) (ground arith) got.pool
    | inr (p, found) ↦ elim (Option-cases (get_elem? (get_worker m type port).1.heap p)) [
      | inl dangling ↦ absurd (ground (arith, got.there p found))
      | inr (w, there) ↦ elim (Run-cases (add_source_of sys w src_id ip port s)) [
        | inl (failure, faulty) ↦ absurd (ground arith)
        | inr ((accepted, w', s₁), ran) ↦ elim (Bool-cases accepted) [
          | inl taken ↦ subst (IsPool k) (ground arith) (
              save-IsPool (written p w w' there ran) src_id p w'
                (set-there (get_worker m type port).1 p w w' there))
          | inr refused ↦ subst (IsPool k) (ground arith) (written p w w' there ran)
        ]
      ]
    ]
  ]
    where
      got : Got k (get_worker m type port)
      got = get_worker-Got inv type port

      written :
          (p : Ptr) (w w' : Worker) {b : Bool} {s₁ : S}
          → get_elem? (get_worker m type port).1.heap p ≡ some w
          → add_source_of sys w src_id ip port s ≡ ok (b, w', s₁)
          → IsPool k (write (get_worker m type port).1 p w')
      written p w w' there ran =
          write-IsPool got.pool p w w' there (add_source_of-id sys w src_id ip port s ran).id_same

pub remove_destination-IsPool :
    {k : ℕ} {m : Manager} (inv : IsPool k m) (src_id dest_id : ℤ) {r : ℤ} {m' : Manager}
    → remove_destination m src_id dest_id ≡ ok (r, m')
    → IsPool k m'
unfolding remove_destination
remove_destination-IsPool {k} {m} inv src_id dest_id e =
    elim (Option-cases (find? src_id m.src_id_worker)) [
      | inl unknown ↦ subst (IsPool k) (ground arith) inv
      | inr (p, known) ↦ elim (Option-cases (get_elem? m.heap p)) [
        | inl dangling ↦ absurd (ground (arith, inv.owned src_id p known))
        | inr (w, there) ↦ elim (Run-cases (remove_destination_of w src_id dest_id)) [
          | inl (failure, faulty) ↦ absurd (ground arith)
          | inr (w', ran) ↦ subst (IsPool k) (ground arith) (
              write-IsPool inv p w w' there (remove_destination_of-id w src_id dest_id ran).id_same)
        ]
      ]
    ]
