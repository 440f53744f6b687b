-- ===== src/Manager/Book/Chosen.antt =====
-- The worker that `getWorker` gives, on sound workers.
use str_manager.Prelude.{
  ◌≡◌, ◌⊎◌, subst, refl, sym, Bool, true, false, Option, some, [], ◌∷◌, ◌++◌, arith, Option-cases,
  Bool-cases, inl, inr, get_elem?,
}
use str_manager.Int.{ℤ, pos, ◌==◌}
use str_manager.System.{System}
use str_manager.Message.{Class, forward, stats, rtcp_worker_type, fwd_worker_type}
use str_manager.Table
use str_manager.Table.{find?}
use str_manager.Table.Keys.{int_key}
use str_manager.Streams.Views.{list_at}
use str_manager.Ports.Local.{is_some, owns}
use str_manager.Worker
use str_manager.Worker.{Worker, launch}
use str_manager.Worker.Valid.{IsValid, new-IsValid}
use str_manager.Manager.{Manager, Ptr, create_worker, get_worker, get_worker_by_port_type}
use str_manager.Manager.Pool.{get_elem?-append, is_there, get_elem?-length}
use str_manager.Manager.Changes.{found-there}
use str_manager.Manager.Sound.{Sound, append-Sound, is_rtcp}
use str_manager.Manager.Book.{book}

module _ {S : Type 0} (sys : System S) (opened : S → ℤ → Bool) where
  -- A worker without sockets and lists.
  record Blank (w : Worker) (s : S) : Type 0 where
    valid : IsValid sys opened w s
    plain : is_rtcp w.class ≡ false
    bare : (fd : ℤ) → owns w.ports fd ≡ false
    blank : (id : ℤ) → is_some (list_at w.streams id) ≡ false

  launched-Blank :
      (c : Class) (id : ℤ) (s : S) → is_rtcp c ≡ false → Blank (launch (Worker.new c id)) s
  unfolding launch Worker.new Worker.base Worker.set_worker_type Table.find? Table.value
  launched-Blank c id s plain =
      let valid = new-IsValid sys opened c id s in
      record {
        valid = record {
          sockets = valid.sockets;
          routes = valid.routes;
          keyed = valid.keyed;
          shared = valid.shared;
        };
        plain = plain;
        bare = λ fd. refl;
        blank = λ j. refl;
      }

  created_cases :
      (m : Manager) (type : ℤ) {w : Worker}
      → (type == rtcp_worker_type) ≡ false
      → create_worker m type ≡ some w
      → (w ≡ Worker.new forward (pos m.current_worker_id))
        ⊎ (w ≡ Worker.new stats (pos m.current_worker_id))
  unfolding create_worker
  created_cases m type plain e = elim (Bool-cases (type == fwd_worker_type)) [
    | inl forwards ↦ inl (ground arith)
    | inr other ↦ inr (ground arith)
  ]

  created-Blank :
      (m : Manager) (type : ℤ) (s : S) {w : Worker}
      → (type == rtcp_worker_type) ≡ false
      → create_worker m type ≡ some w
      → Blank (launch w) s
  created-Blank m type s plain e = elim (created_cases m type plain e) [
    | inl forwards ↦
        subst (λ w. Blank (launch w) s) (sym forwards) (launched-Blank forward _ s refl)
    | inr counts ↦ subst (λ w. Blank (launch w) s) (sym counts) (launched-Blank stats _ s refl)
  ]

  pub record Chosen (m : Manager) (s : S) (r : Option Ptr × Manager) : Type 0 where
    pub sound : Sound sys opened r.1.heap r.1.src_id_worker s
    pub owners : r.1.src_id_worker ≡ m.src_id_worker
    pub there : (p : Ptr) → r.0 ≡ some p → is_there (get_elem? r.1.heap p) ≡ true
    pub books : (j : ℤ) → book r.1 j ≡ book m j

  -- A worker without lists at the end of the heap holds no entry.
  appended-book :
      (m : Manager) {s : S} (sound : Sound sys opened m.heap m.src_id_worker s) (w : Worker) (j : ℤ)
      → book (record m { heap = m.heap ++ w ∷ [] }) j ≡ book m j
  appended-book m sound w j = elim (Option-cases (find? j m.src_id_worker)) [
    | inl unknown ↦ rw unknown
    | inr (p, known) ↦
        rw (known, get_elem?-append m.heap p w)
          (ground (arith, sound.owned j p known, get_elem?-length m.heap))
  ]

  -- What `getWorker` gives for a type that is not RTCP's.
  pub get_worker-Chosen :
      {m : Manager} {s : S}
      → Sound sys opened m.heap m.src_id_worker s
      → (type port : ℤ) → (type == rtcp_worker_type) ≡ false
      → Chosen m s (get_worker m type port)
  unfolding get_worker
  get_worker-Chosen {m} {s} sound type port plain =
      elim (Option-cases (get_worker_by_port_type m port type)) [
        | inr (p, found) ↦
            rw (found, get_worker)
              (record {
                sound = sound;
                owners = refl;
                there = λ q e. ground (arith, found-there m port type p found);
                books = λ j. refl;
              })
        | inl missing ↦ elim (Option-cases (create_worker m type)) [
          | inl unknown ↦
              rw (missing, get_worker)
                (rw (unknown, get_worker)
                  (record { sound = sound; owners = refl; there = λ q e. cc; books = λ j. refl }))
          | inr (w, made) ↦
              let b = created-Blank m type s plain made in
              rw (missing, get_worker)
                (rw (made, get_worker)
                  (record {
                    sound = append-Sound sys opened sound (launch w) b.valid b.plain b.bare b.blank;
                    owners = refl;
                    there = λ q e. rw (get_elem?-append m.heap q (launch w)) (ground arith);
                    books = appended-book m sound (launch w);
                  }))
        ]
      ]
