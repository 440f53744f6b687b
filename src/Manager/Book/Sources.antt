-- ===== src/Manager/Book/Sources.antt =====
-- `addSource` and `removeSource` of Manager.cpp against the book of sources.
use str_manager.Prelude.{
  ℕ, ◌≡◌, ◌<◌, ◌⊎◌, refl, ap, sym, ◌∙◌, String, Bool, true, false, Option, none, some, List, [],
  ◌∷◌, ◌++◌, arith, Option-cases, Bool-cases, inl, inr, get_elem?, set, if◌then◌else◌,
}
use str_manager.Prelude
use str_manager.Int.{ℤ, pos, negsuc, ◌==◌, ==_iff}
use str_manager.Run.{Returns}
use str_manager.System.{System, SystemLaws}
use str_manager.Message.{rtcp_worker_type}
use str_manager.Udp
use str_manager.Table.{find?, put}
use str_manager.Table.Keys.{int_key}
use str_manager.Table.Laws.{find?-put}
use str_manager.Streams.Views.{list_at}
use str_manager.Ports.Local.{is_some}
use str_manager.Worker.{Worker}
use str_manager.Manager.{Manager, Ptr, get_worker, add_source, write, save}
use str_manager.Manager.Identity.{add_source_of-id}
use str_manager.Manager.Pool.{get_elem?-set}
use str_manager.Manager.Sound.{Sound, Handover, write-Sound}
use str_manager.Manager.Book.{book, entry_in, summary, is_some-summary, enter}
use str_manager.Manager.Book.Accept.{Accepted, add_source_of-Accepted}
use str_manager.Manager.Book.Chosen.{Chosen, get_worker-Chosen}

-- A write through a worker's pointer, for the book: the entries of that worker's sources change.
pub entry_in-set :
    (heap : List Worker) (p : Ptr) (w w' : Worker)
    → get_elem? heap p ≡ some w
    → (q : Ptr) (j : ℤ)
    → entry_in (get_elem? (set heap p w') q) j
      ≡ (if Prelude.◌==◌ q p then summary (list_at w'.streams j) else entry_in (get_elem? heap q) j)
entry_in-set heap p w w' there q j = rw (get_elem?-set heap p q w' there) (ground arith)

module _ {S : Type 0} (sys : System S) (opened : S → ℤ → Bool) where
  -- The outcome of `addSource`: 0 and the source is in the book, or -1 and the book is as before.
  pub record Entered (m : Manager) (src_id : ℤ) (ip : String) (port : ℤ) (r : ℤ × Manager × S)
      : Type 0 where
    pub sound : Sound sys opened r.1.heap r.1.src_id_worker r.2
    pub code : (r.0 ≡ pos 0) ⊎ (r.0 ≡ negsuc 0)
    pub made_in : S
    pub books :
        (j : ℤ)
        → book r.1 j ≡ (
            if r.0 == pos 0
            then enter src_id (Udp.make sys made_in src_id ip port) (book m) j
            else book m j)

module _ {S : Type 0} (sys : System S) (opened : S → ℤ → Bool) (laws : SystemLaws sys opened)
    (k : ℕ) (m : Manager) {s : S} (sound : Sound sys opened m.heap m.src_id_worker s) (src_id : ℤ)
    (ip : String) (q : ℕ) (unknown : find? src_id m.src_id_worker ≡ none) where
  -- The worker at `p` has taken its decision on the source.
  module _ (p : Ptr) (w : Worker) (there : get_elem? m.heap p ≡ some w) (accepted : Bool)
      (w' : Worker) (s' : S) (a : Accepted sys opened laws src_id ip q w s (accepted, w', s'))
      (class : w'.class ≡ w.class) where
    listed :
        (j : ℤ)
        → is_some (list_at w'.streams j) ≡ (
            if accepted
            then if j == src_id then true else is_some (list_at w.streams j)
            else is_some (list_at w.streams j))
    listed j =
        sym (is_some-summary (list_at w'.streams j))
        ∙ ap is_some (a.lists j)
        ∙ ground (arith, is_some-summary (list_at w.streams j))

    taken-Handover : accepted ≡ true → Handover sys opened sound p w' (put src_id p m.src_id_worker)
    taken-Handover yea = record {
      others_from =
          λ j r ne e. ground (arith, find?-put src_id j p m.src_id_worker, Prelude.==_iff r p);
      others_to = λ j r ne e.
          ground (arith, find?-put src_id j p m.src_id_worker, unknown, ==_iff j src_id);
      own_from = λ j e.
          ground (arith, listed j, find?-put src_id j p m.src_id_worker, sound.owned j p, there);
      own_to = λ j h.
          ground (arith, listed j, find?-put src_id j p m.src_id_worker, sound.owner j p, there);
    }

    refused-Handover : accepted ≡ false → Handover sys opened sound p w' m.src_id_worker
    refused-Handover nay = record {
      others_from = λ j r ne e. e;
      others_to = λ j r ne e. e;
      own_from = λ j e. ground (arith, listed j, sound.owned j p, there);
      own_to = λ j h. ground (arith, listed j, sound.owner j p, there);
    }

    taken-Entered :
        accepted ≡ true
        → Entered sys opened m src_id ip (pos q) (pos 0, save k (write m p w') src_id p w', s')
    unfolding save write
    taken-Entered yea = record {
      sound = write-Sound sys opened sound p w w' there class a.valid a.local (taken-Handover yea);
      code = inl refl;
      made_in = a.made_in;
      books = λ j. elim (Option-cases (find? j m.src_id_worker)) [
        | inl free ↦ ground (
          arith,
          find?-put src_id j p m.src_id_worker,
          entry_in-set m.heap p w w' there p j,
          a.lists j,
          Prelude.==_iff p p,
        )
        | inr (r, known) ↦ ground (
          arith,
          find?-put src_id j p m.src_id_worker,
          entry_in-set m.heap p w w' there p j,
          entry_in-set m.heap p w w' there r j,
          a.lists j,
          there,
          Prelude.==_iff r p,
          Prelude.==_iff p p,
        )
      ];
    }

    refused-Entered :
        accepted ≡ false → Entered sys opened m src_id ip (pos q) (negsuc 0, write m p w', s')
    unfolding write
    refused-Entered nay = record {
      sound =
          write-Sound sys opened sound p w w' there class a.valid a.local (refused-Handover nay);
      code = inr refl;
      made_in = a.made_in;
      books = λ j. elim (Option-cases (find? j m.src_id_worker)) [
        | inl free ↦ ground arith
        | inr (r, known) ↦
            ground
              (arith, entry_in-set m.heap p w w' there r j, a.lists j, there, Prelude.==_iff r p)
      ];
    }

module _ {S : Type 0} (sys : System S) (opened : S → ℤ → Bool) (laws : SystemLaws sys opened)
    (k : ℕ) {m : Manager} {s : S} (sound : Sound sys opened m.heap m.src_id_worker s) where
  -- On sound workers, for a type that is not RTCP's, an identifier other than 0 that no source has and
  -- a port of 16 bits, `addSource` returns, the workers stay sound, and the book changes as promised:
  -- the source is entered with no destinations if the result is 0, and it stays if it is -1.
  pub add_source-Entered :
      (type src_id : ℤ) (ip : String) (q : ℕ)
      → (type == rtcp_worker_type) ≡ false
      → (src_id == pos 0) ≡ false
      → find? src_id m.src_id_worker ≡ none
      → q < 0x1_0000
      → Returns
          (add_source sys k m type src_id ip (pos q) s)
          (Entered sys opened m src_id ip (pos q))
  unfolding add_source
  add_source-Entered type src_id ip q plain nonzero unknown range = elim (Option-cases ptr) [
    | inl none_made ↦
        rw (none_made, add_source)
          (
            (negsuc 0, m₁, s),
            refl,
            record { sound = chosen.sound; code = inr refl; made_in = s; books = chosen.books },
          )
    | inr (p, found) ↦ elim (Option-cases (get_elem? m₁.heap p)) [
      | inl dangling ↦ absurd (ground (arith, chosen.there p found))
      | inr (w, there) ↦
          let free : find? src_id m₁.src_id_worker ≡ none =
            ap (find? src_id) chosen.owners ∙ unknown in
          let absent : list_at w.streams src_id ≡ none =
            ground (arith, chosen.sound.owner src_id p, there, free) in
          let ((accepted, w', s'), ran, a) =
            add_source_of-Accepted sys opened laws src_id ip q (chosen.sound.plain p w there)
              (chosen.sound.valid p w there) nonzero absent range in
          let same = add_source_of-id sys w src_id ip (pos q) s ran in
          elim (Bool-cases accepted) [
            | inl taken ↦
                rw (found, add_source)
                  (rw (there, ran, taken)
                    (
                      (pos 0, save k (write m₁ p w') src_id p w', s'),
                      refl,
                      on_books (
                          taken-Entered sys opened laws k m₁ chosen.sound src_id ip q free p w there
                            accepted w' s' a same.class_same taken),
                    ))
            | inr refused ↦
                rw (found, add_source)
                  (rw (there, ran, refused)
                    (
                      (negsuc 0, write m₁ p w', s'),
                      refl,
                      on_books (
                          refused-Entered sys opened laws k m₁ chosen.sound src_id ip q free p w
                            there accepted w' s' a same.class_same refused),
                    ))
          ]
    ]
  ]
    where
      ptr : Option Ptr
      ptr = (get_worker m type (pos q)).0

      m₁ : Manager
      m₁ = (get_worker m type (pos q)).1

      chosen : Chosen sys opened m s (get_worker m type (pos q))
      chosen = get_worker-Chosen sys opened sound type (pos q) plain

      on_books :
          {r : ℤ × Manager × S}
          → Entered sys opened m₁ src_id ip (pos q) r
          → Entered sys opened m src_id ip (pos q) r
      on_books o = record {
        sound = o.sound;
        code = o.code;
        made_in = o.made_in;
        books = λ j. ground (arith, o.books j, chosen.books j);
      }
