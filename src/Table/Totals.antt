-- ===== src/Table/Totals.antt =====
-- Sums over the entries of a table, and the distinctness of its keys that they rest on.
use str_manager.Prelude.{
  ℕ, ◌+◌, ◌≡◌, refl, ◌∙◌, Bool-cases, inl, inr, true, false, Option, none, some, [], ◌∷◌, arith,
  if◌then◌else◌, ◌≤◌,
}
use str_manager.Table.Keys.{Key, ◌~◌, ~_congr_left, ~_congr_right}
use str_manager.Table.{Table, find?, contains, put, erase, index}

module _ {K V : Type 0} ⦃key : Key K⦄ where
  abbrev pub Distinct : Table K V → Type 0
  Distinct [] = Unit {0}
  Distinct (e ∷ t) = (contains e.0 t ≡ false) × Distinct t

  contains-put :
      (k j : K) (v : V) (t : Table K V)
      → contains j (put k v t) ≡ (if j ~ k then true else contains j t)
  unfolding contains put
  contains-put k j v [] = refl
  contains-put k j v (e ∷ t) =
      ground (arith, contains-put k j v t, ~_congr_left j k e.0, ~_congr_right j k e.0)

  contains-erase :
      (k j : K) (t : Table K V) → contains j (erase k t) ≡ (if j ~ k then false else contains j t)
  unfolding contains erase
  contains-erase k j [] = ground arith
  contains-erase k j (e ∷ t) =
      ground (arith, contains-erase k j t, ~_congr_left j k e.0, ~_congr_right j k e.0)

  pub put-Distinct : (k : K) (v : V) (t : Table K V) → Distinct t → Distinct (put k v t)
  unfolding put contains
  put-Distinct k v [] d = (refl, tt)
  put-Distinct k v (e ∷ t) d =
      ground (arith, put-Distinct k v t d.1, contains-put k e.0 v t, key.same_symm k e.0)

  pub erase-Distinct : (k : K) (t : Table K V) → Distinct t → Distinct (erase k t)
  unfolding erase
  erase-Distinct k [] d = tt
  erase-Distinct k (e ∷ t) d = ground (arith, erase-Distinct k t d.1, contains-erase k e.0 t)

  pub index-Distinct : (d : V) (k : K) (t : Table K V) → Distinct t → Distinct (index d k t).1
  unfolding index
  index-Distinct d k t h = ground (arith, put-Distinct k d t h)

  pub erase-absent : (k : K) (t : Table K V) → contains k t ≡ false → erase k t ≡ t
  unfolding erase contains
  erase-absent k [] h = refl
  erase-absent k (e ∷ t) h = ground (arith, erase-absent k t)

  pub contains-congr : (k j : K) (t : Table K V) → (k ~ j) ≡ true → contains k t ≡ contains j t
  unfolding contains
  contains-congr k j [] h = refl
  contains-congr k j (e ∷ t) h = ground (arith, contains-congr k j t, ~_congr_left k j e.0)

-- The sum of a weight of the values.
unfoldable pub total : {K V : Type 0} → (V → ℕ) → Table K V → ℕ
total f [] = 0
total f (e ∷ t) = f e.1 + total f t

abbrev pub share : {V : Type 0} → (V → ℕ) → Option V → ℕ
share f none = 0
share f (some v) = f v

module _ {K V : Type 0} ⦃key : Key K⦄ (f : V → ℕ) where
  pub total-put :
      (k : K) (v : V) (t : Table K V) → total f (put k v t) + share f (find? k t) ≡ total f t + f v
  unfolding total put find?
  total-put k v [] = omega arith
  total-put k v (e ∷ t) = ground (arith, total-put k v t)

  pub total-erase :
      (k : K) (t : Table K V) → Distinct t → total f (erase k t) + share f (find? k t) ≡ total f t
  unfolding total erase find?
  total-erase k [] d = omega arith
  total-erase k (e ∷ t) d = elim (Bool-cases (k ~ e.0)) [
    | inl hit ↦ rw (hit, erase-absent k t (contains-congr k e.0 t hit ∙ d.0)) (omega arith)
    | inr miss ↦ rw miss (omega (arith, total-erase k t d.1))
  ]

  -- Reading a missing entry adds the default's share.
  pub total-index : (d : V) (k : K) (t : Table K V) → f d ≡ 0 → total f (index d k t).1 ≡ total f t
  unfolding index
  total-index d k t h = ground (arith, total-put k d t)

  pub share-le-total : (k : K) (t : Table K V) → share f (find? k t) ≤ total f t
  unfolding total find?
  share-le-total k [] = omega arith
  share-le-total k (e ∷ t) = ground (arith, share-le-total k t)
