-- ===== src/Table/Laws.antt =====
-- What a lookup sees after each operation, for any key predicate.
use str_manager.Prelude.{◌≡◌, refl, true, false, none, some, [], ◌∷◌, arith, if◌then◌else◌}
use str_manager.Table.Keys.{Key, ◌~◌, ~_congr_left, ~_congr_right}
use str_manager.Table.{Table, find?, contains, put, erase, index, value}

module _ {K V : Type 0} ⦃key : Key K⦄ where
  pub find?-put :
      (k j : K) (v : V) (t : Table K V)
      → find? j (put k v t) ≡ (if j ~ k then some v else find? j t)
  unfolding find? put
  find?-put k j v [] = refl
  find?-put k j v (e ∷ t) =
      ground (arith, find?-put k j v t, ~_congr_left j k e.0, ~_congr_right j k e.0)

  pub find?-erase :
      (k j : K) (t : Table K V) → find? j (erase k t) ≡ (if j ~ k then none else find? j t)
  unfolding find? erase
  find?-erase k j [] = ground arith
  find?-erase k j (e ∷ t) =
      ground (arith, find?-erase k j t, ~_congr_left j k e.0, ~_congr_right j k e.0)

  pub find?-congr : (k j : K) (t : Table K V) → (k ~ j) ≡ true → find? k t ≡ find? j t
  unfolding find?
  find?-congr k j [] h = refl
  find?-congr k j (e ∷ t) h = ground (arith, find?-congr k j t h, ~_congr_left k j e.0 h)

  pub contains-find? :
      (k : K) (t : Table K V) → contains k t ≡ elim (find? k t) [ none ↦ false | some _ ↦ true ]
  unfolding contains find?
  contains-find? k [] = refl
  contains-find? k (e ∷ t) = ground (arith, contains-find? k t)

  pub index-value : (d : V) (k : K) (t : Table K V) → (index d k t).0 ≡ value d k t
  unfolding index value
  index-value d k t = ground arith

  -- Reading by `operator[]` changes no other entry, and leaves what it read.
  pub find?-index :
      (d : V) (k j : K) (t : Table K V)
      → find? j (index d k t).1 ≡ (if j ~ k then some (value d k t) else find? j t)
  unfolding index value
  find?-index d k j t = ground (arith, find?-put k j d t, find?-congr j k t)

  pub value_lem :
      (d : V) (k : K) (t : Table K V) → value d k t ≡ elim (find? k t) [ none ↦ d | some v ↦ v ]
  unfolding value
  value_lem d k t = refl

  -- Reading a key that is there leaves the table as it is.
  pub index-present :
      (d : V) (k : K) (t : Table K V) {v : V} → find? k t ≡ some v → index d k t ≡ (v, t)
  unfolding index
  index-present d k t e = rw (e, index)
