-- ===== src/Manager/Lookup.antt =====
-- Which worker `getWorker` returns, and what a removed source answers.
use str_manager.Prelude.{
  ap, ◌∙◌, subst, set, ◌⊎◌, Bool-cases, ◌≡◌, String, Bool, true, false, none, some, List, [], ◌∷◌,
  ◌&&◌, ◌++◌, if◌then◌else◌, arith, Option-cases, inl, inr, get_elem?,
}
use str_manager.Int.{ℤ, negsuc, ==_iff}
use str_manager.Run.{Run-cases, ok}
use str_manager.System.{System}
use str_manager.Table.{find?}
use str_manager.Table.Keys.{int_key}
use str_manager.Table.Laws.{find?-erase}
use str_manager.Worker
use str_manager.Worker.{Worker, has_port, is_worker_type}
use str_manager.Manager.{
  Manager, Ptr, WorkerTable, first_worker, get_worker_by_type, get_worker_by_port_type, get_worker,
  write, remove_source, add_destination, remove_destination,
}
use str_manager.Manager.Changes.{first_worker-passes}
use str_manager.Manager.Pool.{get_elem?-set}
use str_manager.Manager.Identity.{remove_source_of-id}
use str_manager.Message.{Message, Class, forward, rtcp, stats}
use str_manager.Manager.Dispatch.{remove_source_of, remove_source_by, rtcp_remove_source}
use str_manager.Prelude

-- A scan that finds nothing has seen no worker that passes the test.
first_worker-none :
    (test : Worker → Bool) (heap : List Worker) (t : WorkerTable)
    → first_worker test heap t ≡ none
    → (id : ℤ) (p : Ptr) (w : Worker) → find? id t ≡ some p
    → get_elem? heap p ≡ some w
    → test w ≡ false
unfolding first_worker find?
first_worker-none test heap [] e id p w found there = cc
first_worker-none test heap (x ∷ t) e id p w found there =
    ground (arith, first_worker-none test heap t (ground arith) id p w)

-- The entries of the pool whose worker has the type lead to `q`.
abbrev pub Only : List Worker → ℤ → Ptr → WorkerTable → Type 0
Only heap type q [] = Unit {0}
Only heap type q (e ∷ t) =
    ((w : Worker) → get_elem? heap e.1 ≡ some w → is_worker_type w type ≡ true → e.1 ≡ q)
    × Only heap type q t

first_worker-Only :
    (test : Worker → Bool) (heap : List Worker) (type : ℤ) (q : Ptr) (t : WorkerTable) {p : Ptr}
    → ((w : Worker) → test w ≡ true → is_worker_type w type ≡ true)
    → Only heap type q t
    → first_worker test heap t ≡ some p
    → p ≡ q
unfolding first_worker
first_worker-Only test heap type q [] typed only e = cc
first_worker-Only test heap type q (x ∷ t) typed (first, only) e =
    elim (Option-cases (get_elem? heap x.1)) [
      | inl missing ↦ first_worker-Only test heap type q t typed only (ground arith)
      | inr (w, there) ↦ elim (Bool-cases (test w)) [
        | inl passes ↦ ground (arith, first w there (typed w passes))
        | inr fails ↦ first_worker-Only test heap type q t typed only (ground arith)
      ]
    ]

Only-set :
    (heap : List Worker) (type : ℤ) (q : Ptr) (w w' : Worker) (t : WorkerTable)
    → get_elem? heap q ≡ some w
    → Only heap type q t
    → Only (set heap q w') type q t
Only-set heap type q w w' [] there only = tt
Only-set heap type q w w' (x ∷ t) there (first, only) = (
  λ v at typed. elim (Bool-cases (Prelude.◌==◌ x.1 q)) [
    | inl own ↦ ground (arith, Prelude.==_iff x.1 q)
    | inr other ↦ first v (ground (arith, get_elem?-set heap q x.1 w' there)) typed
  ],
  Only-set heap type q w w' t there only,
)

-- What `getWorkerByPortType` finds is a worker of the type.
pub record Suited (m : Manager) (type port : ℤ) (v : Worker) : Type 0 where
  pub chosen : Ptr
  pub worker : Worker
  pub unchanged : get_worker m type port ≡ (some chosen, m)
  pub there : get_elem? m.heap chosen ≡ some worker
  pub typed : is_worker_type worker type ≡ true
  pub found :
      (first_worker (λ w. has_port w port && is_worker_type w type) m.heap m.worker_id_worker
        ≡ some chosen)
      ⊎ (first_worker (λ w. is_worker_type w type) m.heap m.worker_id_worker ≡ some chosen)
  pub preferred : (if has_port v port then has_port worker port else true) ≡ true

-- If the pool has a worker `v` of the type, `getWorker` makes none: it returns a worker that is
-- there, of that type, and that has the port if `v` has.
pub get_worker-reuses :
    (m : Manager) (type port id : ℤ) (q : Ptr) (v : Worker)
    → find? id m.worker_id_worker ≡ some q
    → get_elem? m.heap q ≡ some v
    → is_worker_type v type ≡ true
    → Suited m type port v
unfolding get_worker get_worker_by_port_type get_worker_by_type
get_worker-reuses m type port id q v entered there typed =
    elim (Option-cases (first_worker both m.heap m.worker_id_worker)) [
      | inr (p, found) ↦ fit p found (first_worker-passes both m.heap m.worker_id_worker found)
      | inl unfit ↦ elim (Option-cases (first_worker of_type m.heap m.worker_id_worker)) [
        | inl missing ↦ absurd (
            ground (
              arith,
              first_worker-none of_type m.heap m.worker_id_worker missing id q v entered there,
            ))
        | inr (p, found) ↦
            unfitting p unfit found (first_worker-passes of_type m.heap m.worker_id_worker found)
      ]
    ]
  where
    of_type : Worker → Bool
    of_type = λ w. is_worker_type w type

    both : Worker → Bool
    both = λ w. has_port w port && is_worker_type w type

    fit :
        (p : Ptr)
        → first_worker both m.heap m.worker_id_worker ≡ some p
        → ((w : Worker) × (get_elem? m.heap p ≡ some w) × (both w ≡ true))
        → Suited m type port v
    fit p found (w, at, passes) = record {
      chosen = p;
      worker = w;
      unchanged = ground arith;
      there = at;
      typed = ground arith;
      found = inl found;
      preferred = ground arith;
    }

    unfitting :
        (p : Ptr)
        → first_worker both m.heap m.worker_id_worker ≡ none
        → first_worker of_type m.heap m.worker_id_worker ≡ some p
        → ((w : Worker) × (get_elem? m.heap p ≡ some w) × (of_type w ≡ true))
        → Suited m type port v
    unfitting p unfit found (w, at, passes) = record {
      chosen = p;
      worker = w;
      unchanged = ground arith;
      there = at;
      typed = passes;
      found = inr found;
      preferred =
          ground
            (arith, first_worker-none both m.heap m.worker_id_worker unfit id q v entered there);
    }

-- If it is the only one of its type, it is found.
Suited-Only :
    (m : Manager) (type port : ℤ) (q : Ptr) (v : Worker)
    → Only m.heap type q m.worker_id_worker
    → Suited m type port v
    → get_worker m type port ≡ (some q, m)
Suited-Only m type port q v only suited = elim suited.found [
  | inl found ↦
      suited.unchanged
      ∙ ap (λ p. (some p, m))
          (first_worker-Only _ m.heap type q m.worker_id_worker (λ w h. ground arith) only found)
  | inr found ↦
      suited.unchanged
      ∙ ap (λ p. (some p, m))
          (first_worker-Only _ m.heap type q m.worker_id_worker (λ w h. h) only found)
]

module _ {S : Type 0} (sys : System S) where
  -- A call on the source that answers -1 and changes nothing.
  pub record Refused (m : Manager) (src_id : ℤ) : Type 0 where
    pub remove_again : (s : S) → remove_source sys m src_id s ≡ ok (negsuc 0, m, s)
    pub add_refused :
        (dest_id : ℤ) (ip : String) (port : ℤ) (s : S)
        → add_destination sys m src_id dest_id ip port s ≡ ok (negsuc 0, m)
    pub remove_refused : (dest_id : ℤ) → remove_destination m src_id dest_id ≡ ok (negsuc 0, m)

  unknown-Refused :
      (m : Manager) (src_id : ℤ) → find? src_id m.src_id_worker ≡ none → Refused m src_id
  unfolding remove_source add_destination remove_destination
  unknown-Refused m src_id unknown = record {
    remove_again = λ s. ground arith;
    add_refused = λ dest_id ip port s. ground arith;
    remove_refused = λ dest_id. ground arith;
  }

  -- After `removeSource` has returned, with 0 or with -1, the calls of `removeSource`,
  -- `addDestination` and `removeDestination` for that source answer -1 and change nothing.
  pub remove_source-Refused :
      (m : Manager) (src_id : ℤ) (s : S) {r : ℤ} {m' : Manager} {s' : S}
      → remove_source sys m src_id s ≡ ok (r, m', s')
      → Refused m' src_id
  unfolding remove_source write
  remove_source-Refused m src_id s {m'} e =
      unknown-Refused m' src_id
        (ground (arith, find?-erase src_id src_id m.src_id_worker, ==_iff src_id src_id))

  -- A worker that has sent a message to the manager at the removal of a source has been stopped.
  own-stops :
      (w : Worker) (src_id : ℤ) (s : S) {w' : Worker} {sent : List Message} {s' : S}
      → Worker.remove_source sys w src_id s ≡ ok (w', sent, s')
      → (sent ≡ []) ⊎ (w'.working ≡ false)
  unfolding Worker.remove_source Worker.stop
  own-stops w src_id s {w'} e = elim (Bool-cases w'.working) [
    | inr stopped ↦ inr stopped
    | inl works ↦ inl (ground arith)
  ]

  by-stops :
      (c : Class) (w : Worker) (src_id : ℤ) (s : S) {w' : Worker} {sent : List Message} {s' : S}
      → remove_source_by sys c w src_id s ≡ ok (w', sent, s')
      → (sent ≡ []) ⊎ (w'.working ≡ false)
  unfolding remove_source_by rtcp_remove_source
  by-stops forward w src_id s e = own-stops w src_id s e
  by-stops rtcp w src_id s e = inl (ground arith)
  by-stops stats w src_id s e = own-stops w src_id s e

  remove_source_of-stops :
      (w : Worker) (src_id : ℤ) (s : S) {w' : Worker} {sent : List Message} {s' : S}
      → remove_source_of sys w src_id s ≡ ok (w', sent, s')
      → (sent ≡ []) ⊎ (w'.working ≡ false)
  unfolding remove_source_of
  remove_source_of-stops w src_id s e = by-stops w.class w src_id s e

  -- If the pool has one worker of a type, and one of its sources is removed with success, then the worker
  -- is still in the pool under its identifier, although it has been stopped if it has sent its message. It
  -- is the worker that `getWorker` gives next for the type, without making one, whatever the port. The
  -- queue has the message, if any, at its end.
  pub remove_source-Suited :
      (m : Manager) (type port id src_id : ℤ) (q : Ptr) (w : Worker) (s : S) {r : ℤ} {m' : Manager}
      {s' : S}
      → find? id m.worker_id_worker ≡ some q
      → Only m.heap type q m.worker_id_worker
      → find? src_id m.src_id_worker ≡ some q
      → get_elem? m.heap q ≡ some w
      → is_worker_type w type ≡ true
      → remove_source sys m src_id s ≡ ok (r, m', s')
      → (w' : Worker) × (sent : List Message) × (remove_source_of sys w src_id s
          ≡ ok (w', sent, s'))
        × ((sent ≡ []) ⊎ (w'.working ≡ false))
        × (get_elem? m'.heap q ≡ some w')
        × (find? id m'.worker_id_worker ≡ some q)
        × (m'.queue ≡ m.queue ++ sent)
        × (get_worker m' type port ≡ (some q, m'))
  unfolding remove_source write is_worker_type
  remove_source-Suited m type port id src_id q w s {m'} entered only owned there typed e =
      elim (Run-cases (remove_source_of sys w src_id s)) [
        | inl (failure, faulty) ↦ absurd (ground arith)
        | inr ((w', sent, s₁), ran) ↦
            let same = remove_source_of-id sys w src_id s ran in
            let at : get_elem? m'.heap q ≡ some w' =
              ground (arith, get_elem?-set m.heap q q w' there, Prelude.==_iff q q) in
            let there' : find? id m'.worker_id_worker ≡ some q = ground arith in
            let heap : set m.heap q w' ≡ m'.heap = ground arith in
            let pool : m.worker_id_worker ≡ m'.worker_id_worker = ground arith in
            let suited =
              get_worker-reuses m' type port id q w' there' at (ground (arith, same.type_same)) in
            (
              w',
              sent,
              ground arith,
              remove_source_of-stops w src_id s ran,
              at,
              there',
              ground arith,
              Suited-Only m' type port q w'
                  (subst (λ h. Only h type q m'.worker_id_worker) heap
                    (subst (Only (set m.heap q w') type q) pool
                      (Only-set m.heap type q w w' m.worker_id_worker there only)))
                  suited,
            )
      ]
