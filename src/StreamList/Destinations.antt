-- ===== src/StreamList/Destinations.antt =====
-- The destinations of a list as a finite sequence with distinct identifiers, and what the
-- operations that search it do: on a member, on a stranger, and one after the other.
use str_manager.Prelude.{
  ◌≡◌, ◌∙◌, refl, ◌⊎◌, inl, inr, Bool, true, false, Option, none, some, List, [], ◌∷◌, ◌++◌, arith,
  if◌then◌else◌, Bool-cases,
}
use str_manager.Int.{ℤ, ◌==◌, ==_iff}
use str_manager.Run.{Run, ok, fault, end_iterator}
use str_manager.Udp.{UdpStream}
use str_manager.StreamList.{
  StreamList, find_destination, exist_destination, at, erase_at, add_destination, get_destination,
  pop_destination, rem_destination,
}

-- The first destination with an identifier, and the sequence without it: what the operations mean.
unfoldable pub lookup : ℤ → List UdpStream → Option UdpStream
lookup id [] = none
lookup id (u ∷ us) = if u.id == id then some u else lookup id us

unfoldable pub remove : ℤ → List UdpStream → List UdpStream
remove id [] = []
remove id (u ∷ us) = if u.id == id then us else u ∷ remove id us

-- No identifier stands twice.
abbrev pub Distinct : List UdpStream → Type 0
Distinct [] = Unit {0}
Distinct (u ∷ us) = (exist_destination u.id us ≡ false) × Distinct us

pub exist-lookup :
    (id : ℤ) (us : List UdpStream)
    → exist_destination id us ≡ elim (lookup id us) [ none ↦ false | some _ ↦ true ]
unfolding exist_destination lookup
exist-lookup id [] = refl
exist-lookup id (u ∷ us) = ground (arith, exist-lookup id us)

lookup-id : (id : ℤ) (us : List UdpStream) (u : UdpStream) → lookup id us ≡ some u → u.id ≡ id
unfolding lookup
lookup-id id [] u h = cc
lookup-id id (v ∷ us) u h = ground (arith, lookup-id id us u, ==_iff v.id id)

-- What a dereference of the iterator from `findDestination` reads.
at-find :
    (id : ℤ) (us : List UdpStream)
    → at us (find_destination id us)
      ≡ elim (lookup id us) [ none ↦ fault end_iterator | some u ↦ ok u ]
unfolding at find_destination lookup
at-find id [] = refl
at-find id (u ∷ us) = ground (arith, at-find id us)

erase_at-find : (id : ℤ) (us : List UdpStream) → erase_at us (find_destination id us) ≡ remove id us
unfolding erase_at find_destination remove
erase_at-find id [] = refl
erase_at-find id (u ∷ us) = ground (arith, erase_at-find id us)

pub exist-append :
    (id : ℤ) (us : List UdpStream) (u : UdpStream)
    → exist_destination id (us ++ u ∷ []) ≡ (if exist_destination id us then true else u.id == id)
unfolding exist_destination
exist-append id [] u = ground arith
exist-append id (v ∷ us) u = ground (arith, exist-append id us u)

pub remove-absent :
    (id : ℤ) (us : List UdpStream) → exist_destination id us ≡ false → remove id us ≡ us
unfolding exist_destination remove
remove-absent id [] h = refl
remove-absent id (u ∷ us) h = ground (arith, remove-absent id us)

exist-remove :
    (id j : ℤ) (us : List UdpStream)
    → exist_destination j us ≡ false
    → exist_destination j (remove id us) ≡ false
unfolding exist_destination remove
exist-remove id j [] h = refl
exist-remove id j (u ∷ us) h = ground (arith, exist-remove id j us)

append-Distinct :
    (us : List UdpStream) (u : UdpStream)
    → Distinct us
    → exist_destination u.id us ≡ false
    → Distinct (us ++ u ∷ [])
unfolding exist_destination
append-Distinct [] u d h = (refl, tt)
append-Distinct (v ∷ us) u d h = (
  ground (arith, exist-append v.id us u, ==_iff u.id v.id, ==_iff v.id u.id),
  append-Distinct us u d.1 (ground arith),
)

remove-Distinct : (id : ℤ) (us : List UdpStream) → Distinct us → Distinct (remove id us)
unfolding remove
remove-Distinct id [] d = tt
remove-Distinct id (u ∷ us) d =
    ground (arith, remove-Distinct id us d.1, exist-remove id u.id us d.0)

remove-append :
    (us : List UdpStream) (u : UdpStream)
    → exist_destination u.id us ≡ false
    → remove u.id (us ++ u ∷ []) ≡ us
unfolding remove exist_destination
remove-append [] u h = ground (arith, ==_iff u.id u.id)
remove-append (v ∷ us) u h = ground (arith, remove-append us u)

lookup-append :
    (us : List UdpStream) (u : UdpStream)
    → exist_destination u.id us ≡ false
    → lookup u.id (us ++ u ∷ []) ≡ some u
unfolding lookup exist_destination
lookup-append [] u h = ground (arith, ==_iff u.id u.id)
lookup-append (v ∷ us) u h = ground (arith, lookup-append us u)

-- A search either stops at the end, or at a stream with the identifier.
pub search_cases :
    (id : ℤ) (us : List UdpStream)
    → ((lookup id us ≡ none) × (at us (find_destination id us) ≡ fault end_iterator))
      ⊎ ((u : UdpStream) × (lookup id us ≡ some u)
          × (at us (find_destination id us) ≡ ok u)
          × ((u.id == id) ≡ true))
unfolding at find_destination lookup
search_cases id [] = inl (refl, refl)
search_cases id (u ∷ us) = elim (Bool-cases (u.id == id)) [
  | inl hit ↦ inr (u, rw hit, rw hit, hit)
  | inr miss ↦ rw miss (search_cases id us)
]

-- What a search by identifier gives: the stream found, or the fault of reading through the end.
abbrev pub found_or_fault {ℓ} : {A : Type ℓ} → Option UdpStream → (UdpStream → A) → Run A
found_or_fault none f = fault end_iterator
found_or_fault (some u) f = ok (f u)

module _ (l : StreamList) where
  -- Adding a stream keeps the identifiers of the destinations distinct, whether or not it is accepted.
  pub add_destination-Distinct :
      (d : UdpStream) {b : Bool} {l' : StreamList}
      → add_destination l (some d) ≡ ok (b, l')
      → Distinct l.destinations
      → Distinct l'.destinations
  unfolding add_destination
  add_destination-Distinct d e distinct =
      elim (Bool-cases (exist_destination d.id l.destinations)) [
        | inl old ↦ ground arith
        | inr new ↦ ground (arith, append-Distinct l.destinations d distinct new)
      ]

  -- The three operations that search for an identifier find the first stream that has it, and
  -- `popDestination` and `remDestination` take exactly that one out. Without such a stream each of
  -- them reads through the end iterator.
  pub searches_lem :
      (id : ℤ)
      → let found = lookup id l.destinations in
        let rest = record l { destinations = remove id l.destinations } in
        (get_destination l id ≡ found_or_fault found (λ u. some u))
        × (pop_destination l id ≡ found_or_fault found (λ u. (some u, rest)))
        × (rem_destination l id ≡ found_or_fault found (λ u. (true, rest)))
  unfolding get_destination pop_destination rem_destination
  searches_lem id = elim (search_cases id l.destinations) [
    | inl (missing, end) ↦ (rw (missing, end), rw (missing, end), rw (missing, end))
    | inr (u, found, read, hit) ↦
        let erased = erase_at-find id l.destinations in
        (rw (found, read, hit), rw (found, read, hit, erased), rw (found, read, hit, erased))
  ]

  -- A new identifier is appended; an old one changes nothing.
  pub add_destination_cases :
      (d : UdpStream) {b : Bool} {l' : StreamList}
      → add_destination l (some d) ≡ ok (b, l')
      → ((exist_destination d.id l.destinations ≡ true) × (b ≡ false) × (l' ≡ l))
        ⊎ ((exist_destination d.id l.destinations ≡ false)
            × (b ≡ true)
            × (l' ≡ record l { destinations = l.destinations ++ d ∷ [] }))
  unfolding add_destination
  add_destination_cases d e = elim (Bool-cases (exist_destination d.id l.destinations)) [
    | inl old ↦ inl (old, ground arith, ground arith)
    | inr new ↦ inr (new, ground arith, ground arith)
  ]

-- A stream that `addDestination` has accepted is what `getDestination` finds, and `remDestination` of it
-- restores the list.
pub rem-add_destination :
    (l : StreamList) (d : UdpStream) {l' : StreamList}
    → add_destination l (some d) ≡ ok (true, l')
    → (get_destination l' d.id ≡ ok (some d)) × (rem_destination l' d.id ≡ ok (true, l))
rem-add_destination l d {l'} e = elim (add_destination_cases l d e) [
  | inl (_, impossible, _) ↦ cc
  | inr (new, _, added) ↦
      let (got, _, removed) = searches_lem l' d.id in
      rw
        (
          got,
          removed,
          added,
          lookup-append l.destinations d new,
          remove-append l.destinations d new,
        )
        (refl, refl)
]

-- `remDestination` on a destination that is there.
pub rem_destination-present :
    (l : StreamList) (id : ℤ)
    → exist_destination id l.destinations ≡ true
    → rem_destination l id ≡ ok (true, record l { destinations = remove id l.destinations })
rem_destination-present l id h =
    (searches_lem l id).2 ∙ ground (arith, exist-lookup id l.destinations)
