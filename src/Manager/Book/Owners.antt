-- ===== src/Manager/Book/Owners.antt =====
-- The keys of the table of sources, `srcIdWorker`.
use str_manager.Prelude.{
  ℕ, ◌≡◌, sym, subst, String, Bool, Option-cases, Bool-cases, inl, inr, arith, get_elem?,
}
use str_manager.Int.{ℤ, pos}
use str_manager.Run.{Run-cases, ok}
use str_manager.System.{System}
use str_manager.Table.{find?}
use str_manager.Table.Keys.{int_key}
use str_manager.Table.Totals.{Distinct, put-Distinct, erase-Distinct}
use str_manager.Worker
use str_manager.Manager.{
  Manager, WorkerTable, new, write, save, get_worker, handle_message, read_time_stamp, add_source,
  remove_source, add_destination, remove_destination,
}
use str_manager.Manager.Dispatch.{
  add_source_of, remove_source_of, add_destination_of, remove_destination_of,
}
use str_manager.Manager.Book.Executions.{
  Execution, Step, started, then_step, source_added, source_removed, destination_added,
  destination_removed, message_handled, packet_processed, stamp_read, stats_reported, machine_ran,
}

abbrev Once : WorkerTable → Type 0
Once t = Distinct t

abbrev pub HasOwners : Manager → Type 0
HasOwners m = Distinct m.src_id_worker

get_worker_owners :
    (m : Manager) (type port : ℤ) → (get_worker m type port).1.src_id_worker ≡ m.src_id_worker
unfolding get_worker
get_worker_owners m type port = ground arith

module _ {S : Type 0} (sys : System S) (k : ℕ) (m : Manager) (d : HasOwners m) where
  add_source-HasOwners :
      (type src_id : ℤ) (ip : String) (port : ℤ) (s : S) {r : ℤ} {m' : Manager} {s' : S}
      → add_source sys k m type src_id ip port s ≡ ok (r, m', s')
      → HasOwners m'
  unfolding add_source save write
  add_source-HasOwners type src_id ip port s e = elim (Option-cases (get_worker m type port).0) [
    | inl unknown ↦ subst Once (ground arith) got
    | inr (p, found) ↦ elim (Option-cases (get_elem? (get_worker m type port).1.heap p)) [
      | inl dangling ↦ absurd (ground arith)
      | inr (w, there) ↦ elim (Run-cases (add_source_of sys w src_id ip port s)) [
        | inl (failure, faulty) ↦ absurd (ground arith)
        | inr ((accepted, w', s₁), ran) ↦ elim (Bool-cases accepted) [
          | inl taken ↦
              subst Once (ground arith)
                (put-Distinct src_id p (get_worker m type port).1.src_id_worker got)
          | inr refused ↦ subst Once (ground arith) got
        ]
      ]
    ]
  ]
    where
      got : HasOwners (get_worker m type port).1
      got = subst Once (sym (get_worker_owners m type port)) d

  remove_source-HasOwners :
      (src_id : ℤ) (s : S) {r : ℤ} {m' : Manager} {s' : S}
      → remove_source sys m src_id s ≡ ok (r, m', s')
      → HasOwners m'
  unfolding remove_source write
  remove_source-HasOwners src_id s e = elim (Option-cases (find? src_id m.src_id_worker)) [
    | inl unknown ↦ subst Once (ground arith) d
    | inr (p, known) ↦ elim (Option-cases (get_elem? m.heap p)) [
      | inl dangling ↦ absurd (ground arith)
      | inr (w, there) ↦ elim (Run-cases (remove_source_of sys w src_id s)) [
        | inl (failure, faulty) ↦ absurd (ground arith)
        | inr ((w', sent, s₁), ran) ↦
            subst Once (ground arith) (erase-Distinct src_id m.src_id_worker d)
      ]
    ]
  ]

  add_destination-HasOwners :
      (src_id dest_id : ℤ) (ip : String) (port : ℤ) (s : S) {r : ℤ} {m' : Manager}
      → add_destination sys m src_id dest_id ip port s ≡ ok (r, m')
      → HasOwners m'
  unfolding add_destination write
  add_destination-HasOwners src_id dest_id ip port s e =
      elim (Option-cases (find? src_id m.src_id_worker)) [
        | inl unknown ↦ subst Once (ground arith) d
        | inr (p, known) ↦ elim (Option-cases (get_elem? m.heap p)) [
          | inl dangling ↦ absurd (ground arith)
          | inr (w, there) ↦ elim (Run-cases (add_destination_of sys w src_id dest_id ip port s)) [
            | inl (failure, faulty) ↦ absurd (ground arith)
            | inr (w', ran) ↦ subst Once (ground arith) d
          ]
        ]
      ]

  read_time_stamp-HasOwners :
      (src_id : ℤ) (s : S) {stamp : ℕ} {m' : Manager} {s' : S}
      → read_time_stamp sys m src_id s ≡ ok (stamp, m', s')
      → HasOwners m'
  unfolding read_time_stamp write
  read_time_stamp-HasOwners src_id s e = elim (Option-cases (find? src_id m.src_id_worker)) [
    | inl unknown ↦ subst Once (ground arith) d
    | inr (p, known) ↦ elim (Option-cases (get_elem? m.heap p)) [
      | inl dangling ↦ absurd (ground arith)
      | inr (w, there) ↦ elim (Run-cases (Worker.read_time_stamp w src_id)) [
        | inl (failure, faulty) ↦ absurd (ground arith)
        | inr ((stamp, w'), ran) ↦ subst Once (ground arith) d
      ]
    ]
  ]

remove_destination-HasOwners :
    (m : Manager) (d : HasOwners m) (src_id dest_id : ℤ) {r : ℤ} {m' : Manager}
    → remove_destination m src_id dest_id ≡ ok (r, m')
    → HasOwners m'
unfolding remove_destination write
remove_destination-HasOwners m d src_id dest_id e =
    elim (Option-cases (find? src_id m.src_id_worker)) [
      | inl unknown ↦ subst Once (ground arith) d
      | inr (p, known) ↦ elim (Option-cases (get_elem? m.heap p)) [
        | inl dangling ↦ absurd (ground arith)
        | inr (w, there) ↦ elim (Run-cases (remove_destination_of w src_id dest_id)) [
          | inl (failure, faulty) ↦ absurd (ground arith)
          | inr (w', ran) ↦ subst Once (ground arith) d
        ]
      ]
    ]

handle_message_owners : (m : Manager) → (handle_message m).src_id_worker ≡ m.src_id_worker
unfolding handle_message
handle_message_owners m = ground arith

module _ {S : Type 0} (sys : System S) {opened : S → ℤ → Bool} {k : ℕ} where
  Step-HasOwners :
      {m : Manager} {s : S} {m' : Manager} {s' : S}
      → HasOwners m
      → Step sys opened k m s m' s'
      → HasOwners m'
  unfolding write
  Step-HasOwners {m} d (source_added type src_id ip q plain nonzero unknown range e) =
      add_source-HasOwners sys k m d type src_id ip (pos q) _ e
  Step-HasOwners {m} d (source_removed src_id e) = remove_source-HasOwners sys k m d src_id _ e
  Step-HasOwners {m} d (destination_added src_id dest_id ip port e) =
      add_destination-HasOwners sys k m d src_id dest_id ip port _ e
  Step-HasOwners {m} d (destination_removed src_id dest_id e) =
      remove_destination-HasOwners m d src_id dest_id e
  Step-HasOwners {m} d message_handled = subst Once (sym (handle_message_owners m)) d
  Step-HasOwners d (packet_processed p w fd port there registered) = d
  Step-HasOwners {m} d (stamp_read src_id e) = read_time_stamp-HasOwners sys k m d src_id _ e
  Step-HasOwners d (stats_reported p w there counts e) = d
  Step-HasOwners d (machine_ran still) = d

  pub Execution-HasOwners : {m : Manager} {s : S} → Execution sys opened k m s → HasOwners m
  unfolding new
  Execution-HasOwners (started s) = tt
  Execution-HasOwners (then_step before step) = Step-HasOwners (Execution-HasOwners before) step
