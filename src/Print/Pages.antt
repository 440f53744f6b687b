-- ===== src/Print/Pages.antt =====
-- The pointers that the printers of the manager follow.
use Prim.Native.String.{String}
use str_manager.Prelude.{
  ℕ, ◌≡◌, refl, ap, sym, ◌∙◌, Bool, true, Option, none, some, List, [], ◌∷◌, arith, Option-cases,
  inl, inr, get_elem?,
}
use str_manager.Int.{ℤ}
use str_manager.Run.{Run, ok, Returns}
use str_manager.System.{System}
use str_manager.Table.{Table, find?, contains}
use str_manager.Table.Keys.{Key, int_key}
use str_manager.Table.Totals.{Distinct}
use str_manager.Table.Laws.{contains-find?, find?-congr, value_lem}
use str_manager.StreamList.{StreamList}
use str_manager.Streams.Routing.{has_source}
use str_manager.Worker.{Worker}
use str_manager.Worker.Valid.{IsValid}
use str_manager.Manager.{Manager, WorkerTable}
use str_manager.Manager.Pool.{IsPool, is_there}
use str_manager.Manager.Sound.{Sound}
use str_manager.Manager.Book.Executions.{Execution, Execution-Sound}
use str_manager.Manager.Book.Pooled.{Execution-IsPool}
use str_manager.Manager.Book.Owners.{Execution-HasOwners}
use str_manager.System.{SystemLaws}
use str_manager.Print.{
  print_stream_list, print_lists, print_worker, print_sources, print_workers, print_management,
  print_forwarding,
}

-- Every entry of a table satisfies `P`.
abbrev Each : {K V : Type 0} → (V → Type 0) → Table K V → Type 0
Each P [] = Unit {0}
Each P (e ∷ t) = P e.1 × Each P t

-- A table that has each key once has the entries that one finds in it.
found-Each :
    {K V : Type 0} ⦃key : Key K⦄ {P : V → Type 0} (t : Table K V)
    → Distinct t
    → ((k : K) (v : V) → find? k t ≡ some v → P v)
    → Each P t
unfolding find? contains
found-Each [] d h = tt
found-Each {K} {V} ⦃key = key⦄ (e ∷ t) (new, d) h = (
  h e.0 e.1 (ground (arith, key.same_refl e.0)),
  found-Each t d (λ k v found. h k v (later k v found)),
)
  where
    later : (k : K) (v : V) → find? k t ≡ some v → find? k (e ∷ t) ≡ some v
    later k v found = ground (arith, find?-congr k e.0 t, contains-find? e.0 t)

module _ {S : Type 0} (sys : System S) where
  print_stream_list-Returns :
      (l : StreamList)
      → has_source (some l) ≡ true
      → Returns (print_stream_list sys l) (λ text. Unit {0})
  unfolding print_stream_list
  print_stream_list-Returns l h = elim (Option-cases l.source) [
    | inl bare ↦ absurd (ground arith)
    | inr (u, source) ↦ rw source (_, refl, tt)
  ]

  print_lists-Returns :
      (t : Table ℤ (Option StreamList))
      → Each (λ l. has_source l ≡ true) t
      → Returns (print_lists sys t) (λ text. Unit {0})
  unfolding print_lists
  print_lists-Returns [] each = (_, refl, tt)
  print_lists-Returns (e ∷ t) (h, each) =
      let (more, ran, u) = print_lists-Returns t each in
      elim (Option-cases e.1) [
        | inl null ↦ rw null (more, ran, tt)
        | inr (l, there) ↦
            let (text, printed, v) = print_stream_list-Returns l (ap has_source (sym there) ∙ h) in
            rw (there, printed, ran) (_, refl, tt)
      ]

print_workers-Returns :
    (page : Worker → Run String) (heap : List Worker) (t : WorkerTable)
    → ((p : ℕ) (w : Worker) → get_elem? heap p ≡ some w → Returns (page w) (λ text. Unit {0}))
    → Each (λ p. is_there (get_elem? heap p) ≡ true) t
    → Returns (print_workers page heap t) (λ text. Unit {0})
unfolding print_workers
print_workers-Returns page heap [] pages each = (_, refl, tt)
print_workers-Returns page heap (e ∷ t) pages (h, each) = elim (Option-cases (get_elem? heap e.1)) [
  | inl dangling ↦ absurd (ground arith)
  | inr (w, there) ↦
      let (text, printed, u) = pages e.1 w there in
      let (more, ran, v) = print_workers-Returns page heap t pages each in
      rw (there, printed, ran) (_, refl, tt)
]

module _ {S : Type 0} (sys : System S) (opened : S → ℤ → Bool) (laws : SystemLaws sys opened)
    (k : ℕ) where
  print_worker-Returns :
      {w : Worker} {s : S}
      → IsValid sys opened w s
      → Returns (print_worker sys w) (λ text. Unit {0})
  unfolding print_worker
  print_worker-Returns {w} valid =
      let (text, ran, u) =
        print_lists-Returns sys w.streams.management
          (found-Each w.streams.management valid.keyed sourced) in
      rw ran (_, refl, tt)
    where
      sourced :
          (id : ℤ) (l : Option StreamList)
          → find? id w.streams.management ≡ some l
          → has_source l ≡ true
      sourced id l found =
          ground (arith, valid.routes.sourced id, value_lem none id w.streams.management)

  print_management-Returns :
      {m : Manager} {s : S}
      → Execution sys opened k m s
      → Returns (print_management sys m) (λ text. Unit {0})
  unfolding print_management
  print_management-Returns {m} {s} before =
      let (text, ran, u) =
        print_workers-Returns (print_worker sys) m.heap m.worker_id_worker pages there in
      rw ran (_, refl, tt)
    where
      sound : Sound sys opened m.heap m.src_id_worker s
      sound = Execution-Sound sys opened laws k before

      pages :
          (p : ℕ) (w : Worker)
          → get_elem? m.heap p ≡ some w
          → Returns (print_worker sys w) (λ text. Unit {0})
      pages p w at = print_worker-Returns (sound.valid p w at)

      pool : IsPool k m
      pool = Execution-IsPool sys before

      there : Each (λ p. is_there (get_elem? m.heap p) ≡ true) m.worker_id_worker
      there =
          found-Each m.worker_id_worker pool.distinct
            (λ id p found. ground (arith, pool.entered id p found))

  print_forwarding-Returns :
      {m : Manager} {s : S}
      → Execution sys opened k m s
      → Returns (print_forwarding m) (λ text. Unit {0})
  unfolding print_forwarding
  print_forwarding-Returns {m} before =
      let (text, ran, u) =
        print_workers-Returns (λ w. ok (print_sources w)) m.heap m.src_id_worker
          (λ p w at. (print_sources w, refl, tt)) there in
      rw ran (_, refl, tt)
    where
      pool : IsPool k m
      pool = Execution-IsPool sys before

      there : Each (λ p. is_there (get_elem? m.heap p) ≡ true) m.src_id_worker
      there = found-Each m.src_id_worker (Execution-HasOwners sys before) pool.owned

  -- In every execution in which no source is added of RTCP's type, with the identifier 0 or one in use, or
  -- at a port of more than 16 bits, `printManagement` and `printForwarding` return: they meet no dangling
  -- worker, and no stream list without a source.
  pub printers_return :
      {m : Manager} {s : S}
      → Execution sys opened k m s
      → Returns (print_management sys m) (λ text. Unit {0})
        × Returns (print_forwarding m) (λ text. Unit {0})
  printers_return before = (print_management-Returns before, print_forwarding-Returns before)
