-- ===== src/Worker/Loop/Ready.antt =====
-- What `build_select_list` of Worker.cpp hands to `select`.
use str_manager.Prelude.{
  ℕ, Bool, false, refl, ◌⊎◌, ◌≡◌, subst, zero, suc, true, some, List, [], ◌∷◌, arith, Bool-cases,
  inl, inr, if◌then◌else◌,
}
use str_manager.Int
use str_manager.System.{System}
use str_manager.Run.{Returns, fault, out_of_set}
use str_manager.Int.{ℤ, pos, negsuc, inc, ◌==◌, ==_iff}
use str_manager.Table.{find?}
use str_manager.Ports.Sockets.{fd_of}
use str_manager.Table.Keys.{int_key}
use str_manager.Ports.{Ports, IntTable, has_room, build_select_list, build_loop}
use str_manager.Worker.Loop.{is_set}

ltb_trans : (a b c : ℤ) → Int.ltb a b ≡ true → Int.ltb b c ≡ true → Int.ltb a c ≡ true
ltb_trans a b c h k = ground arith

ltb-inc : (a b : ℤ) → Int.ltb a b ≡ true → Int.ltb (inc a) (inc b) ≡ true
ltb-inc (pos a) (pos b) h = ground arith
ltb-inc (pos a) (negsuc b) h = ground arith
ltb-inc (negsuc zero) (pos b) h = ground arith
ltb-inc (negsuc (suc a)) (pos b) h = ground arith
ltb-inc (negsuc zero) (negsuc zero) h = ground arith
ltb-inc (negsuc zero) (negsuc (suc b)) h = ground arith
ltb-inc (negsuc (suc a)) (negsuc zero) h = ground arith
ltb-inc (negsuc (suc a)) (negsuc (suc b)) h = ground arith

below-raised : (high x : ℤ) → Int.ltb x (inc (if Int.ltb high x then x else high)) ≡ true
below-raised (pos a) (pos b) = ground arith
below-raised (pos a) (negsuc zero) = ground arith
below-raised (pos a) (negsuc (suc b)) = ground arith
below-raised (negsuc zero) (pos b) = ground arith
below-raised (negsuc (suc a)) (pos b) = ground arith
below-raised (negsuc zero) (negsuc zero) = ground arith
below-raised (negsuc zero) (negsuc (suc b)) = ground arith
below-raised (negsuc (suc a)) (negsuc zero) = ground arith
below-raised (negsuc (suc a)) (negsuc (suc b)) = ground arith

raised :
    (high y x : ℤ)
    → Int.ltb x (inc high) ≡ true
    → Int.ltb x (inc (if Int.ltb high y then y else high)) ≡ true
raised high y x h = elim (Bool-cases (Int.ltb high y)) [
  | inl more ↦ rw more (ltb_trans x (inc high) (inc y) h (ltb-inc high y more))
  | inr kept ↦ rw kept h
]

-- All descriptors of the table have room in the set.
abbrev pub all_room : ℕ → IntTable → Bool
all_room size [] = true
all_room size (e ∷ t) = if has_room size e.1 then all_room size t else false

-- A descriptor is in the set, and below the bound.
abbrev pub Covers : ℤ × List ℤ → ℤ → Type 0
Covers r x = (is_set x r.1 ≡ true) × (Int.ltb x r.0 ≡ true)

module _ {S : Type 0} (sys : System S) where
  -- The loop never lowers its bound and never drops a descriptor.
  build_loop-returns :
      (t : IntTable) (high : ℤ) (fdset : List ℤ)
      → all_room sys.fd_setsize t ≡ true
      → Returns (build_loop sys t high fdset) λ r.
        ((x : ℤ) → Int.ltb x (inc high) ≡ true → Int.ltb x r.0 ≡ true)
        × ((x : ℤ) → is_set x fdset ≡ true → is_set x r.1 ≡ true)
        × ((port x : ℤ) → find? port t ≡ some x → Covers r x)
  unfolding build_loop find?
  build_loop-returns [] high fdset room =
      (_, refl, ((λ x h. h), (λ x h. h), λ port x h. absurd (ground arith)))
  build_loop-returns (e ∷ t) high fdset room = elim (Bool-cases (has_room sys.fd_setsize e.1)) [
    | inr full ↦ absurd (ground arith)
    | inl fits ↦
        let (r, ran, (bounds, keeps, covers)) =
          build_loop-returns t (if Int.ltb high e.1 then e.1 else high) (e.1 ∷ fdset)
            (ground arith) in
        rw (fits, ran)
          (
            r,
            refl,
            (
              (λ x h. bounds x (raised high e.1 x h)),
              (λ x h. keeps x (ground (arith, h))),
              λ port x h. elim (Bool-cases (port == e.0)) [
                | inl hit ↦
                    let same : e.1 ≡ x = ground arith in
                    (
                      keeps x (ground (arith, ==_iff x e.1)),
                      bounds x (
                          subst
                            (λ y. Int.ltb y (inc (if Int.ltb high e.1 then e.1 else high)) ≡ true)
                            same (below-raised high e.1)),
                    )
                | inr miss ↦ covers port x (ground arith)
              ],
            ),
          )
  ]

  build_loop-faults :
      (t : IntTable) (high : ℤ) (fdset : List ℤ)
      → all_room sys.fd_setsize t ≡ false
      → build_loop sys t high fdset ≡ fault out_of_set
  unfolding build_loop
  build_loop-faults [] high fdset full = cc
  build_loop-faults (e ∷ t) high fdset full = elim (Bool-cases (has_room sys.fd_setsize e.1)) [
    | inr outside ↦ rw outside refl
    | inl fits ↦ rw fits (build_loop-faults t _ (e.1 ∷ fdset) (ground arith))
  ]

  -- If all descriptors of the table have room in an `fd_set`, `build_select_list` returns, and the
  -- descriptor of every open port is in the set that it makes for `select`, and below the number that it
  -- makes with it. If some descriptor is negative or beyond the room, it is undefined.
  pub build_select_list-Covers :
      (p : Ports)
      → ((all_room sys.fd_setsize p.port_fd ≡ true)
          × Returns
              (build_select_list sys p)
              (λ r. (port fd : ℤ) → fd_of p port ≡ some fd → Covers r fd))
        ⊎ ((all_room sys.fd_setsize p.port_fd ≡ false)
            × (build_select_list sys p ≡ fault out_of_set))
  unfolding build_select_list
  build_select_list-Covers p = elim (Bool-cases (all_room sys.fd_setsize p.port_fd)) [
    | inl room ↦
        let (r, ran, (bounds, keeps, covers)) = build_loop-returns p.port_fd (negsuc 0) [] room in
        inl (room, (r, ran, covers))
    | inr full ↦ inr (full, build_loop-faults p.port_fd (negsuc 0) [] full)
  ]
