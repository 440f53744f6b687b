-- ===== src/Manager/Book/Destinations.antt =====
-- `addDestination` and `removeDestination` of Manager.cpp against the book of sources.
use str_manager.Prelude.{
  ℕ, ◌≡◌, ◌<◌, ◌⊎◌, refl, ap, sym, ◌∙◌, String, Bool, true, false, Option, none, some, List, [],
  ◌∷◌, ◌++◌, arith, Option-cases, Bool-cases, inl, inr, get_elem?, set, if◌then◌else◌,
}
use str_manager.Prelude
use str_manager.Int.{ℤ, pos, negsuc, ==_iff}
use str_manager.Run.{ok, Returns, Returns-both}
use str_manager.System.{System}
use str_manager.Udp
use str_manager.Table.{find?}
use str_manager.Table.Keys.{int_key}
use str_manager.StreamList.{StreamList}
use str_manager.Streams.Views.{list_at}
use str_manager.Ports.Local.{is_some}
use str_manager.Worker
use str_manager.Worker.Lists.{
  extend, Redirected, add_destination_to-Redirected, remove_destination-Redirected,
}
use str_manager.Worker.Destinations.{add_destination_to-IsValid, remove_destination-IsValid}
use str_manager.StreamList.Destinations.{remove}
use str_manager.Manager.Book.Removal.{source_of}
use str_manager.Ports.Local.{still-Local}
use str_manager.Streams.Routing.{has_source}
use str_manager.Udp.{UdpStream}
use str_manager.Message.{Class, forward, rtcp, stats}
use str_manager.Worker.{Worker}
use str_manager.Worker.Valid.{IsValid}
use str_manager.Manager.{Manager, Ptr, add_destination, remove_destination, write}
use str_manager.Manager.Dispatch.{
  add_destination_of, remove_destination_of, add_destination_by, remove_destination_by,
}
use str_manager.Manager.Identity.{add_destination_of-id, remove_destination_of-id}
use str_manager.Manager.Sound.{Sound, write-Sound, is_rtcp}
use str_manager.Manager.Book.{adjust, book}
use str_manager.Manager.Book.Sources.{entry_in-set}

module _ {S : Type 0} (sys : System S) (opened : S → ℤ → Bool) where
  -- What a worker that is no RTCP worker does with the destinations of a source that it has.
  record Turned (w : Worker) (src_id : ℤ) (l : StreamList) (s : S) (ds : List UdpStream)
      (w' : Worker) : Type 0 where
    pub valid : IsValid sys opened w' s
    pub ports : w'.ports ≡ w.ports
    pub lists : Redirected w.streams w'.streams src_id l ds

  module _ {w : Worker} {s : S} (src_id : ℤ) (l : StreamList) (valid : IsValid sys opened w s)
      (present : list_at w.streams src_id ≡ some l) where
    source : (u : UdpStream) × (l.source ≡ some u)
    source = source_of l (ap has_source (sym present) ∙ valid.routes.sourced src_id)

    added :
        (dest_id : ℤ) (ip : String) (port : ℤ)
        → Returns
            (Worker.add_destination_to sys w src_id dest_id ip port s)
            (Turned w src_id l s (extend (Udp.make sys s dest_id ip port) l.destinations))
    unfolding Worker.add_destination_to
    added dest_id ip port =
        let (w', ran, ((valid', routed), lists)) =
          Returns-both
            (add_destination_to-IsValid sys opened valid src_id l source.0 present source.1 dest_id
              ip port)
            (add_destination_to-Redirected w src_id l source.0 present source.1 sys dest_id ip port
              s) in
        (w', ran, record { valid = valid'; ports = ports_lem ran; lists = lists })
      where
        ports_lem :
            {w' : Worker}
            → Worker.add_destination_to sys w src_id dest_id ip port s ≡ ok w'
            → w'.ports ≡ w.ports
        ports_lem ran = ground arith

    removed :
        (dest_id : ℤ)
        → Returns
            (Worker.remove_destination w src_id dest_id)
            (Turned w src_id l s (remove dest_id l.destinations))
    unfolding Worker.remove_destination
    removed dest_id =
        let (w', ran, ((valid', routed), lists)) =
          Returns-both
            (remove_destination-IsValid sys opened valid src_id l source.0 present source.1 dest_id)
            (remove_destination-Redirected w src_id l source.0 present source.1 dest_id) in
        (w', ran, record { valid = valid'; ports = ports_lem ran; lists = lists })
      where
        ports_lem :
            {w' : Worker} → Worker.remove_destination w src_id dest_id ≡ ok w' → w'.ports ≡ w.ports
        ports_lem ran = ground arith

    add_by :
        (c : Class) (dest_id : ℤ) (ip : String) (port : ℤ)
        → is_rtcp c ≡ false
        → Returns
            (add_destination_by sys c w src_id dest_id ip port s)
            (Turned w src_id l s (extend (Udp.make sys s dest_id ip port) l.destinations))
    unfolding add_destination_by
    add_by forward dest_id ip port plain = added dest_id ip port
    add_by rtcp dest_id ip port plain = cc
    add_by stats dest_id ip port plain = added dest_id ip port

    remove_by :
        (c : Class) (dest_id : ℤ)
        → is_rtcp c ≡ false
        → Returns
            (remove_destination_by c w src_id dest_id)
            (Turned w src_id l s (remove dest_id l.destinations))
    unfolding remove_destination_by
    remove_by forward dest_id plain = removed dest_id
    remove_by rtcp dest_id plain = cc
    remove_by stats dest_id plain = removed dest_id

  -- The outcome of a call that changes the destinations of one source by `f`.
  pub record Adjusted (m : Manager) (src_id : ℤ) (f : List UdpStream → List UdpStream) (s : S)
      (r : ℤ × Manager) : Type 0 where
    pub sound : Sound sys opened r.1.heap r.1.src_id_worker s
    pub code : r.0 ≡ (if is_some (find? src_id m.src_id_worker) then pos 0 else negsuc 0)
    pub books : (j : ℤ) → book r.1 j ≡ adjust src_id f (book m) j

  module _ (m : Manager) {s : S} (sound : Sound sys opened m.heap m.src_id_worker s) (src_id : ℤ)
      (f : List UdpStream → List UdpStream) where
    turned-Adjusted :
        (p : Ptr) (w w' : Worker) (l : StreamList)
        → find? src_id m.src_id_worker ≡ some p
        → get_elem? m.heap p ≡ some w
        → list_at w.streams src_id ≡ some l
        → w'.class ≡ w.class
        → Turned w src_id l s (f l.destinations) w'
        → Adjusted m src_id f s (pos 0, write m p w')
    unfolding write
    turned-Adjusted p w w' l owned there present class t = record {
      sound =
          write-Sound sys opened sound p w w' there class t.valid
            (still-Local (λ fd h. h) (λ fd. ground (arith, t.ports)))
            (record {
              others_from = λ j q ne e. e;
              others_to = λ j q ne e. e;
              own_from = λ j e. ground (arith, t.lists j, sound.owned j p, there);
              own_to =
                  λ j h. ground (arith, t.lists j, sound.owner j p, there, owned, ==_iff j src_id);
            });
      code = rw owned refl;
      books = λ j. elim (Option-cases (find? j m.src_id_worker)) [
        | inl free ↦ ground arith
        | inr (r, known) ↦ ground (
          arith,
          entry_in-set m.heap p w w' there r j,
          t.lists j,
          there,
          present,
          owned,
          ==_iff j src_id,
          Prelude.==_iff r p,
        )
      ];
    }

    unknown-Adjusted : find? src_id m.src_id_worker ≡ none → Adjusted m src_id f s (negsuc 0, m)
    unknown-Adjusted unknown = record {
      sound = sound;
      code = rw unknown refl;
      books = λ j. ground (arith, ==_iff j src_id, unknown);
    }

  module _ (m : Manager) {s : S} (sound : Sound sys opened m.heap m.src_id_worker s)
      (src_id : ℤ) where
    -- What the owner of a known source is.
    owner_cases :
        {p : Ptr}
        → find? src_id m.src_id_worker ≡ some p
        → (w : Worker) × (l : StreamList) × (get_elem? m.heap p ≡ some w)
          × (list_at w.streams src_id ≡ some l)
    owner_cases {p} owned = elim (Option-cases (get_elem? m.heap p)) [
      | inl dangling ↦ absurd (ground (arith, sound.owned src_id p owned))
      | inr (w, there) ↦ elim (Option-cases (list_at w.streams src_id)) [
        | inl absent ↦ absurd (ground (arith, sound.owned src_id p owned))
        | inr (l, present) ↦ (w, l, there, present)
      ]
    ]

    -- On sound workers, none of which is an RTCP worker, `addDestination` returns, 0 if the source is
    -- known and else -1. The workers stay sound, and in the book the source gets the destination at the end, unless it has one with that
    -- identifier. The result is 0 in that case too.
    pub add_destination-Adjusted :
        (dest_id : ℤ) (ip : String) (port : ℤ)
        → Returns
            (add_destination sys m src_id dest_id ip port s)
            (Adjusted m src_id (extend (Udp.make sys s dest_id ip port)) s)
    unfolding add_destination add_destination_of
    add_destination-Adjusted dest_id ip port = elim (Option-cases (find? src_id m.src_id_worker)) [
      | inl unknown ↦
          rw (unknown, add_destination) (_, refl, unknown-Adjusted m sound src_id _ unknown)
      | inr (p, owned) ↦
          let (w, l, there, present) = owner_cases owned in
          let (w', ran, t) =
            add_by src_id l (sound.valid p w there) present w.class dest_id ip port
              (sound.plain p w there) in
          rw (owned, add_destination)
            (rw (there, ran)
              (
                _,
                refl,
                turned-Adjusted m sound src_id _ p w w' l owned there present
                    (add_destination_of-id sys w src_id dest_id ip port s ran).class_same t,
              ))
    ]

    -- On sound workers, none of which is an RTCP worker, `removeDestination` returns, 0 if the source is
    -- known and else -1. The workers stay sound, and in the book the source loses its first destination with the identifier, if any.
    pub remove_destination-Adjusted :
        (dest_id : ℤ)
        → Returns (remove_destination m src_id dest_id) (Adjusted m src_id (remove dest_id) s)
    unfolding remove_destination remove_destination_of
    remove_destination-Adjusted dest_id = elim (Option-cases (find? src_id m.src_id_worker)) [
      | inl unknown ↦
          rw (unknown, remove_destination) (_, refl, unknown-Adjusted m sound src_id _ unknown)
      | inr (p, owned) ↦
          let (w, l, there, present) = owner_cases owned in
          let (w', ran, t) =
            remove_by src_id l (sound.valid p w there) present w.class dest_id
              (sound.plain p w there) in
          rw (owned, remove_destination)
            (rw (there, ran)
              (
                _,
                refl,
                turned-Adjusted m sound src_id _ p w w' l owned there present
                    (remove_destination_of-id w src_id dest_id ran).class_same t,
              ))
    ]
