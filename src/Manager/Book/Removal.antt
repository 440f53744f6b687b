-- ===== src/Manager/Book/Removal.antt =====
-- `removeSource` of Manager.cpp against the book of sources.
use str_manager.Prelude.{
  ℕ, ◌≡◌, ◌<◌, ◌⊎◌, refl, ap, sym, ◌∙◌, String, Bool, true, false, Option, none, some, List, [],
  ◌∷◌, ◌++◌, arith, Option-cases, Bool-cases, inl, inr, get_elem?, set, if◌then◌else◌,
}
use str_manager.Prelude
use str_manager.Int.{ℤ, pos, negsuc, ◌==◌, ==_iff}
use str_manager.Run.{Returns}
use str_manager.System.{System, SystemLaws}
use str_manager.Message.{Message}
use str_manager.Table.{find?, erase}
use str_manager.Table.Keys.{int_key}
use str_manager.Table.Laws.{find?-erase}
use str_manager.StreamList.{StreamList}
use str_manager.Streams.Views.{list_at}
use str_manager.Ports.Local.{is_some, Local}
use str_manager.Worker
use str_manager.Worker.Local.{remove_source-Local}
use str_manager.Worker.Removal.{remove_source-IsValid}
use str_manager.Streams.Routing.{has_source}
use str_manager.Udp.{UdpStream}
use str_manager.Message.{Class, forward, rtcp, stats}
use str_manager.Manager.Dispatch.{remove_source_by}
use str_manager.Worker.{Worker}
use str_manager.Worker.Valid.{IsValid}
use str_manager.Manager.{Manager, Ptr, remove_source, write}
use str_manager.Manager.Dispatch.{remove_source_of}
use str_manager.Manager.Identity.{remove_source_of-id}
use str_manager.Manager.Sound.{Sound, Handover, write-Sound, is_rtcp}
use str_manager.Manager.Book.{book, forget}
use str_manager.Manager.Book.Sources.{entry_in-set}

-- A list of a well formed worker has a source.
pub source_of :
    (l : StreamList) → has_source (some l) ≡ true → (u : UdpStream) × (l.source ≡ some u)
source_of l h = elim (Option-cases l.source) [
  | inl bare ↦ absurd (ground arith)
  | inr found ↦ found
]

module _ {S : Type 0} (sys : System S) (opened : S → ℤ → Bool) (laws : SystemLaws sys opened) where
  -- What a worker that is no RTCP worker does with a source that it has.
  record Dropped (w : Worker) (src_id : ℤ) (s : S) (r : Worker × List Message × S) : Type 0 where
    pub valid : IsValid sys opened r.0 r.2
    pub local : Local opened w.ports r.0.ports s r.2
    pub lists :
        (j : ℤ) → list_at r.0.streams j ≡ (if j == src_id then none else list_at w.streams j)

  dropped :
      {w : Worker} {s : S} (src_id : ℤ) (l : StreamList) (u : UdpStream)
      → IsValid sys opened w s
      → list_at w.streams src_id ≡ some l
      → l.source ≡ some u
      → Returns (Worker.remove_source sys w src_id s) (Dropped w src_id s)
  dropped {w} {s} src_id l u valid present source =
      let (r, ran, (valid', unlinked, reported)) =
        remove_source-IsValid sys opened laws valid src_id l u present source in
      (
        r,
        ran,
        record {
          valid = valid';
          local = remove_source-Local sys opened laws w s valid src_id l u present source ran;
          lists = unlinked.lists;
        },
      )

  drop_by :
      {w : Worker} {s : S} (c : Class) (src_id : ℤ) (l : StreamList)
      → is_rtcp c ≡ false
      → IsValid sys opened w s
      → list_at w.streams src_id ≡ some l
      → Returns (remove_source_by sys c w src_id s) (Dropped w src_id s)
  unfolding remove_source_by
  drop_by forward src_id l plain valid present =
      let (u, source) = source_of l (ap has_source (sym present) ∙ valid.routes.sourced src_id) in
      dropped src_id l u valid present source
  drop_by rtcp src_id l plain valid present = cc
  drop_by stats src_id l plain valid present =
      let (u, source) = source_of l (ap has_source (sym present) ∙ valid.routes.sourced src_id) in
      dropped src_id l u valid present source

  -- The outcome of `removeSource`.
  pub record Left (m : Manager) (src_id : ℤ) (r : ℤ × Manager × S) : Type 0 where
    pub sound : Sound sys opened r.1.heap r.1.src_id_worker r.2
    pub code : r.0 ≡ (if is_some (find? src_id m.src_id_worker) then pos 0 else negsuc 0)
    pub books : (j : ℤ) → book r.1 j ≡ forget src_id (book m) j

  module _ (m : Manager) {s : S} (sound : Sound sys opened m.heap m.src_id_worker s) where
    Dropped-Handover :
        (src_id : ℤ) (p : Ptr) (w : Worker) {r : Worker × List Message × S}
        → find? src_id m.src_id_worker ≡ some p
        → get_elem? m.heap p ≡ some w
        → Dropped w src_id s r
        → Handover sys opened sound p r.0 (erase src_id m.src_id_worker)
    Dropped-Handover src_id p w owned there d = record {
      others_from = λ j q ne e. ground (arith, find?-erase src_id j m.src_id_worker);
      others_to = λ j q ne e.
          ground (
            arith,
            find?-erase src_id j m.src_id_worker,
            owned,
            ==_iff j src_id,
            Prelude.==_iff q p,
          );
      own_from = λ j e.
          ground (arith, d.lists j, find?-erase src_id j m.src_id_worker, sound.owned j p, there);
      own_to = λ j h.
          ground (arith, d.lists j, find?-erase src_id j m.src_id_worker, sound.owner j p, there);
    }

    -- On sound workers, none of which is an RTCP worker, `removeSource` returns, 0 if the source is known
    -- and else -1. The workers stay sound, and the source, and no other, leaves the book.
    pub remove_source-Left : (src_id : ℤ) → Returns (remove_source sys m src_id s) (Left m src_id)
    unfolding remove_source write remove_source_of
    remove_source-Left src_id = elim (Option-cases (find? src_id m.src_id_worker)) [
      | inl unknown ↦
          rw (unknown, remove_source)
            (
              (negsuc 0, m, s),
              refl,
              record {
                sound = sound;
                code = rw unknown refl;
                books = λ j. ground (arith, ==_iff j src_id, unknown);
              },
            )
      | inr (p, owned) ↦ elim (Option-cases (get_elem? m.heap p)) [
        | inl dangling ↦ absurd (ground (arith, sound.owned src_id p owned))
        | inr (w, there) ↦ elim (Option-cases (list_at w.streams src_id)) [
          | inl absent ↦ absurd (ground (arith, sound.owned src_id p owned))
          | inr (l, present) ↦
              let ((w', sent, s'), ran, d) =
                drop_by w.class src_id l (sound.plain p w there) (sound.valid p w there) present in
              let same = remove_source_of-id sys w src_id s ran in
              rw (owned, remove_source)
                (rw (there, ran)
                  (
                    _,
                    refl,
                    record {
                      sound =
                          write-Sound sys opened sound p w w' there same.class_same d.valid d.local
                            (Dropped-Handover src_id p w owned there d);
                      code = rw owned refl;
                      books = λ j. elim (Option-cases (find? j m.src_id_worker)) [
                        | inl free ↦ ground (arith, find?-erase src_id j m.src_id_worker)
                        | inr (r, known) ↦ ground (
                          arith,
                          find?-erase src_id j m.src_id_worker,
                          entry_in-set m.heap p w w' there r j,
                          d.lists j,
                          there,
                          Prelude.==_iff r p,
                        )
                      ];
                    },
                  ))
        ]
      ]
    ]
