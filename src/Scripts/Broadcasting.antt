-- ===== src/Scripts/Broadcasting.antt =====
-- The calls of examples/BC_strManager/src/main.cpp against the book of sources.
use Prim.Native.String.{String}
use str_manager.Prelude.{
  ℕ, zero, suc, ◌≡◌, refl, ap, ◌∙◌, ◌⊎◌, Bool, true, false, some, List, [], ◌∷◌, arith, inl, inr,
  if◌then◌else◌,
}
use str_manager.Int.{ℤ, pos, negsuc, ==_iff}
use str_manager.Run.{ok, Returns}
use str_manager.Text.Decimal.{atoi}
use str_manager.System.{System}
use str_manager.Message.{forward}
use str_manager.StreamList
use str_manager.StreamList.{exist_destination}
use str_manager.StreamList.Stats.{add_s32}
use str_manager.Table.{find?, put}
use str_manager.Table.Laws.{find?-put}
use str_manager.Table.Keys.{int_key}
use str_manager.Udp
use str_manager.Udp.{UdpStream}
use str_manager.Streams.Views.{list_at}
use str_manager.Worker
use str_manager.Worker.{Worker, launch, add_source_with}
use str_manager.Worker.Displaced.{entered_list, Decided, add_source_with-Decided}
use str_manager.Worker.Lists.{extend}
use str_manager.Manager.{Manager, new, get_worker, save, write, add_source, add_destination}
use str_manager.Manager.Dispatch.{add_source_of, add_source_by}
use str_manager.Manager.Book.{book}
use str_manager.Manager.Book.Forwarders.{AllForward, book-Booked, add_destination-Rebooked}
use str_manager.Scripts.{Outcome, continues, returns, broadcast}

-- The one worker that a new manager makes.
abbrev hired : Worker
hired = launch (Worker.new forward (pos 0))

-- The manager that has it.
abbrev staffed : Manager
staffed = record new { heap = hired ∷ [] }

first_worker_lem : (port : ℤ) → get_worker new (pos 1) port ≡ (some 0, staffed)
unfolding get_worker new str_manager.Manager.get_worker_by_port_type
    str_manager.Manager.get_worker_by_type str_manager.Manager.first_worker
    str_manager.Manager.create_worker
first_worker_lem port = refl

module _ {S : Type 0} (sys : System S) (k : ℕ) where
  -- The first source of a new manager: it is in the book, or the manager has none.
  First : ℤ → String → ℤ → S → ℤ × Manager × S → Type 0
  First src ip port s r =
      ((r.0 ≡ pos 0)
        × AllForward r.1
        × (book r.1 src ≡ some (some (Udp.make sys s src ip port), [])))
      ⊎ ((r.0 ≡ negsuc 0) × (r.1.src_id_worker ≡ []))

  hired_class : hired.class ≡ forward
  unfolding launch Worker.new
  hired_class = refl

  abbrev Made : ℤ → String → ℤ → S → Bool × Worker × S → Type 0
  Made src ip port s r = Decided sys hired s src ip port (StreamList.new sys s) r

  hired-Decided :
      (src : ℤ) (ip : String) (port : ℤ) (s : S)
      → Returns (add_source_of sys hired src ip port s) (Made src ip port s)
  unfolding add_source_of add_source_by Worker.add_source
  hired-Decided src ip port s =
      let (r, ran, d) = add_source_with-Decided sys hired s src ip port (StreamList.new sys s) in
      (r, ap (λ c. add_source_by sys c hired src ip port s) hired_class ∙ ran, d)

  entered-First :
      (src : ℤ) (ip : String) (port : ℤ) (s : S) (w' : Worker) (s' : S)
      → Made src ip port s (true, w', s')
      → First src ip port s (pos 0, save k (write staffed 0 w') src 0 w', s')
  unfolding First save write new StreamList.new
  entered-First src ip port s w' s' d = inl (refl, forwards, entry)
    where
      forwards : AllForward (save k (write staffed 0 w') src 0 w')
      forwards zero w e = ground (arith, d.class_same, hired_class)
      forwards (suc p) w e = cc

      known : find? {V = ℕ} src (put src 0 []) ≡ some 0
      known = find?-put src src 0 [] ∙ ground (arith, ==_iff src src)

      there :
          list_at w'.streams src
          ≡ some (entered_list sys hired s src ip port (StreamList.new sys s))
      there = (d.entered refl).lists src ∙ ground (arith, ==_iff src src)

      entry :
          book (save k (write staffed 0 w') src 0 w') src
          ≡ some (some (Udp.make sys s src ip port), [])
      entry = rw (known, there) refl

  add_source-First :
      (src : ℤ) (ip : String) (port : ℤ) (s : S)
      → Returns (add_source sys k new (pos 1) src ip port s) (First src ip port s)
  unfolding add_source First write new
  add_source-First src ip port s =
      let ((accepted, w', s'), ran, d) = hired-Decided src ip port s in
      rw
        (
          ap (λ r. r.0) (first_worker_lem port),
          ap (λ r. r.1) (first_worker_lem port),
          ran,
          add_source,
        )
        (_, refl, decided accepted w' s' d)
    where
      decided :
          (accepted : Bool) (w' : Worker) (s' : S)
          → Made src ip port s (accepted, w', s')
          → First src ip port s (
              if accepted
              then (pos 0, save k (write staffed 0 w') src 0 w', s')
              else (negsuc 0, write staffed 0 w', s'))
      decided true w' s' d = entered-First src ip port s w' s' d
      decided false w' s' d = inr (refl, refl)

  -- What the program promises at its end, by what `addSource` gives for its source: an error if that is
  -- -1, and if it is 0, the source in the book with the three destinations in order.
  abbrev pub Broadcast : String → ℤ → List UdpStream → S → Outcome Manager × S → Type 0
  Broadcast ip port ds s r = Returns (add_source sys k new (pos 1) (pos 0) ip port s) λ first.
      (r.1 ≡ first.2)
      × (((first.0 ≡ negsuc 0) × (r.0 ≡ returns (negsuc 1)))
          ⊎ ((first.0 ≡ pos 0)
              × ((m : Manager) × (r.0 ≡ continues m)
                  × AllForward m
                  × (book m (pos 0) ≡ some (some (Udp.make sys s (pos 0) ip port), ds)))))

  -- A refused source.
  refused :
      (m : Manager) (dest : ℤ) (ip : String) (port : ℤ) (s : S)
      → m.src_id_worker ≡ []
      → add_destination sys m (pos 0) dest ip port s ≡ ok (negsuc 0, m)
  unfolding add_destination find?
  refused m dest ip port s none_there = ground (arith, none_there)

  -- The next destination of the source.
  record Joined (m : Manager) (u : UdpStream) (ds : List UdpStream) (r : ℤ × Manager) : Type 0 where
    pub code : r.0 ≡ pos 0
    pub forwards : AllForward r.1
    pub entry : book r.1 (pos 0) ≡ some (some u, ds)

  joins :
      (m : Manager) (u : UdpStream) (ds : List UdpStream) (dest : ℤ) (ip : String) (port : ℤ)
      (s : S)
      → AllForward m
      → book m (pos 0) ≡ some (some u, ds)
      → Returns
          (add_destination sys m (pos 0) dest ip port s)
          (Joined m u (extend (Udp.make sys s dest ip port) ds))
  joins m u ds dest ip port s forwards entry =
      let (r, ran, o) =
        add_destination-Rebooked m (pos 0) forwards (book-Booked m (pos 0) u ds entry) sys dest ip
          port s in
      (
        r,
        ran,
        record { code = o.code; forwards = o.forwards; entry = o.books (pos 0) ∙ rw entry refl },
      )

  -- The three destinations, in order.
  abbrev pub three : (ip₂ port₂ ip₃ port₃ ip₄ port₄ : String) → S → List UdpStream
  three ip₂ port₂ ip₃ port₃ ip₄ port₄ s =
      Udp.make sys s (pos 1) ip₂ (atoi port₂)
      ∷ Udp.make sys s (pos 2) ip₃ (atoi port₃)
      ∷ Udp.make sys s (pos 3) ip₄ (atoi port₄)
      ∷ []

  -- With eight arguments and on every machine, the program's calls return. If `addSource` answers -1 for
  -- the source, the program ends with -2. If it answers 0, the only other answer, the program goes on, and
  -- the book has the source under 0, made of the first two arguments, with the three destinations of the
  -- others, in order.
  pub broadcast-Broadcast :
      (ip₁ port₁ ip₂ port₂ ip₃ port₃ ip₄ port₄ : String) (s : S)
      → Returns
          (broadcast sys k (ip₁ ∷ port₁ ∷ ip₂ ∷ port₂ ∷ ip₃ ∷ port₃ ∷ ip₄ ∷ port₄ ∷ []) s)
          λ r. Broadcast ip₁ (atoi port₁) (three ip₂ port₂ ip₃ port₃ ip₄ port₄ r.1) s r
  unfolding broadcast add_s32 First exist_destination Udp.make
  broadcast-Broadcast ip₁ port₁ ip₂ port₂ ip₃ port₃ ip₄ port₄ s =
      let ((r, m, s'), ran, first) = add_source-First (pos 0) ip₁ (atoi port₁) s in
      elim first [
        | inr (nay, none_there) ↦
            rw
              (
                ran,
                refused m (pos 1) ip₂ (atoi port₂) s' none_there,
                refused m (pos 2) ip₃ (atoi port₃) s' none_there,
                refused m (pos 3) ip₄ (atoi port₄) s' none_there,
                nay,
              )
              (_, refl, ((r, m, s'), refl, (refl, inl (nay, refl))))
        | inl (fine, forwards, entry) ↦
            let u = Udp.make sys s (pos 0) ip₁ (atoi port₁) in
            let ((r₂, m₂), ran₂, o₂) = joins m u [] (pos 1) ip₂ (atoi port₂) s' forwards entry in
            let ((r₃, m₃), ran₃, o₃) =
              joins m₂ u _ (pos 2) ip₃ (atoi port₃) s' o₂.forwards o₂.entry in
            let ((r₄, m₄), ran₄, o₄) =
              joins m₃ u _ (pos 3) ip₄ (atoi port₄) s' o₃.forwards o₃.entry in
            rw (ran, ran₂, ran₃, ran₄, fine, o₂.code, o₃.code, o₄.code)
              (_, refl, ((r, m, s'), refl, (refl, inr (fine, (m₄, refl, o₄.forwards, o₄.entry)))))
      ]
