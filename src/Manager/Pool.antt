-- ===== src/Manager/Pool.antt =====
-- The pool of workers: how its identifiers, its table and the heap of workers hang together.
use str_manager.Prelude.{
  ℕ, zero, suc, ◌+◌, ◌≤◌, ◌<◌, ◌≡◌, refl, ap, ◌∙◌, Bool, true, false, Option, none, some, List, [],
  ◌∷◌, ◌++◌, arith, Bool-cases, Option-cases, inl, inr, leb, if◌then◌else◌, get_elem?, set, length,
}
use str_manager.Prelude
use str_manager.Int.{ℤ, pos, negsuc, ◌==◌}
use str_manager.Table.{Table, find?, put, erase}
use str_manager.Table.Keys.{int_key}
use str_manager.Table.Totals.{Distinct, erase-Distinct, erase-absent, contains-congr}
use str_manager.Worker.{Worker}
use str_manager.Manager.{Manager, Ptr}

-- There is always room for one worker.
abbrev pub limit : ℕ → ℕ
limit zero = 1
limit (suc k) = suc k

abbrev pub below : ℕ → ℤ → Bool
below n (pos a) = Prelude.ltb a n
below n (negsuc a) = false

abbrev pub worker_below : ℕ → Option Worker → Bool
worker_below n none = true
worker_below n (some w) = below n w.worker_id

-- The pointer leads to a worker with the identifier.
abbrev pub has_id : Option Worker → ℤ → Bool
has_id none id = false
has_id (some w) id = w.worker_id == id

abbrev pub is_there : Option Worker → Bool
is_there none = false
is_there (some w) = true

-- The keys of a table of workers are below a number.
abbrev pub AllBelow : ℕ → Table ℤ Ptr → Type 0
AllBelow n [] = Unit {0}
AllBelow n (e ∷ t) = (below n e.0 ≡ true) × AllBelow n t

-- Every identifier in use is below the limit, every entry of the pool leads to a worker with that
-- identifier, no identifier stands twice, and every source leads to a worker.
pub record IsPool (max_workers : ℕ) (m : Manager) : Type 0 where
  pub current : m.current_worker_id < limit max_workers
  pub numbered : (p : Ptr) → worker_below (limit max_workers) (get_elem? m.heap p) ≡ true
  pub entered :
      (id : ℤ) (p : Ptr)
      → find? id m.worker_id_worker ≡ some p
      → has_id (get_elem? m.heap p) id ≡ true
  pub owned :
      (src : ℤ) (p : Ptr)
      → find? src m.src_id_worker ≡ some p
      → is_there (get_elem? m.heap p) ≡ true
  pub distinct : Distinct m.worker_id_worker
  pub listed : AllBelow (limit max_workers) m.worker_id_worker

-- Distinct identifiers below `n` are `n` at most.
length-erase : (k : ℤ) (t : Table ℤ Ptr) → Distinct t → length t ≤ length (erase k t) + 1
unfolding erase
length-erase k [] d = omega arith
length-erase k (e ∷ t) d = elim (Bool-cases (k == e.0)) [
  | inl hit ↦ rw (hit, erase-absent k t (contains-congr k e.0 t hit ∙ d.0)) (omega arith)
  | inr miss ↦ rw miss (omega (arith, length-erase k t d.1))
]

erase-AllBelow : (n : ℕ) (t : Table ℤ Ptr) → AllBelow (suc n) t → AllBelow n (erase (pos n) t)
unfolding erase
erase-AllBelow n [] h = tt
erase-AllBelow n (((pos a), p) ∷ t) h = ground (arith, erase-AllBelow n t h.1)
erase-AllBelow n (((negsuc a), p) ∷ t) h = absurd (ground (arith, h.0))

pub length-le : (n : ℕ) (t : Table ℤ Ptr) → Distinct t → AllBelow n t → length t ≤ n
length-le zero [] d h = omega arith
length-le zero (((pos a), p) ∷ t) d h = absurd (ground (arith, h.0))
length-le zero (((negsuc a), p) ∷ t) d h = absurd (ground (arith, h.0))
length-le (suc n) t d h = omega (
  arith,
  length-erase (pos n) t d,
  length-le n (erase (pos n) t) (erase-Distinct (pos n) t d) (erase-AllBelow n t h),
)

pub put-AllBelow :
    (n : ℕ) (id : ℤ) (p : Ptr) (t : Table ℤ Ptr)
    → below n id ≡ true
    → AllBelow n t
    → AllBelow n (put id p t)
unfolding put
put-AllBelow n id p [] h d = (h, tt)
put-AllBelow n id p (e ∷ t) h d = elim (Bool-cases (id == e.0)) [
  | inl hit ↦ rw hit d
  | inr miss ↦ rw miss (d.0, put-AllBelow n id p t h d.1)
]

pub erase-listed : (n : ℕ) (id : ℤ) (t : Table ℤ Ptr) → AllBelow n t → AllBelow n (erase id t)
unfolding erase
erase-listed n id [] d = tt
erase-listed n id (e ∷ t) d = elim (Bool-cases (id == e.0)) [
  | inl hit ↦ rw hit (erase-listed n id t d.1)
  | inr miss ↦ rw miss (d.0, erase-listed n id t d.1)
]

-- The heap after a write and after a new worker.
pub get_elem?-set :
    (ws : List Worker) (p q : ℕ) (w : Worker) {old : Worker}
    → get_elem? ws p ≡ some old
    → get_elem? (set ws p w) q ≡ (if Prelude.◌==◌ q p then some w else get_elem? ws q)
get_elem?-set [] p q w e = cc
get_elem?-set (x ∷ ws) zero zero w e = refl
get_elem?-set (x ∷ ws) zero (suc q) w e = ground arith
get_elem?-set (x ∷ ws) (suc p) zero w e = ground arith
get_elem?-set (x ∷ ws) (suc p) (suc q) w e = get_elem?-set ws p q w e ∙ ground arith

pub get_elem?-append :
    (ws : List Worker) (q : ℕ) (w : Worker)
    → get_elem? (ws ++ w ∷ []) q ≡ (if Prelude.◌==◌ q (length ws) then some w else get_elem? ws q)
get_elem?-append [] zero w = refl
get_elem?-append [] (suc q) w = ground arith
get_elem?-append (x ∷ ws) zero w = ground arith
get_elem?-append (x ∷ ws) (suc q) w = get_elem?-append ws q w ∙ ground arith

pub get_elem?-length : (ws : List Worker) → get_elem? ws (length ws) ≡ none
get_elem?-length [] = refl
get_elem?-length (x ∷ ws) = get_elem?-length ws
