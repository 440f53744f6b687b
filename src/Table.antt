-- ===== src/Table.antt =====
-- `std::tr1::unordered_map` as the code uses it: `count`, `operator[]`, `erase` and iteration. The
-- entries stand in the order in which an iteration meets them; that order is the library's choice,
-- so no theorem may lean on it. Keys are compared by the map's predicate, which must be an
-- equivalence and need not be equality.
pub mod Keys
pub mod Laws
pub mod Totals
use str_manager.Prelude.{Bool, true, false, Option, none, some, List, [], ◌∷◌, if◌then◌else◌}
use Keys.{Key, ◌~◌}

abbrev pub Table : Type 0 → Type 0 → Type 0
Table K V = List (K × V)

-- `t.size() == 0`
unfoldable pub is_empty : {K V : Type 0} → Table K V → Bool
is_empty [] = true
is_empty (_ ∷ _) = false

module _ {K V : Type 0} ⦃key : Key K⦄ where
  unfoldable pub find? : K → Table K V → Option V
  find? k [] = none
  find? k (e ∷ t) = if k ~ e.0 then some e.1 else find? k t

  -- `t.count(k) > 0`
  unfoldable pub contains : K → Table K V → Bool
  contains k [] = false
  contains k (e ∷ t) = if k ~ e.0 then true else contains k t

  -- `t[k] = v`: the entry's key stays.
  unfoldable pub put : K → V → Table K V → Table K V
  put k v [] = (k, v) ∷ []
  put k v (e ∷ t) = if k ~ e.0 then (e.0, v) ∷ t else e ∷ put k v t

  -- `t.erase(k)`
  unfoldable pub erase : K → Table K V → Table K V
  erase k [] = []
  erase k (e ∷ t) = let rest = erase k t in if k ~ e.0 then rest else e ∷ rest

  -- `t[k]` read: a missing key is first given the value `d` of `V()`.
  unfoldable pub index : V → K → Table K V → V × Table K V
  unfolding find? put
  index d k t = elim (find? k t) [ none ↦ (d, put k d t) | some v ↦ (v, t) ]

  -- The value that `t[k]` reads.
  unfoldable pub value : V → K → Table K V → V
  value d k t = elim (find? k t) [ none ↦ d | some v ↦ v ]
