-- ===== src/Manager/Book/Forwarders.antt =====
-- `addDestination` and `removeDestination` of Manager.cpp against the book of sources, for a manager all
-- of whose workers are forwarders, and whatever identifier the source has, 0 included.
use str_manager.Prelude.{
  ℕ, ◌≡◌, refl, ap, sym, ◌∙◌, String, Bool, true, false, Option, none, some, List, [], ◌∷◌, arith,
  Option-cases, Bool-cases, inl, inr, get_elem?, if◌then◌else◌,
}
use str_manager.Prelude
use str_manager.Int.{ℤ, pos, ==_iff}
use str_manager.Run.{ok, Returns}
use str_manager.System.{System}
use str_manager.Message.{forward}
use str_manager.Table.{find?}
use str_manager.Table.Keys.{int_key}
use str_manager.Udp
use str_manager.Udp.{UdpStream}
use str_manager.StreamList.{StreamList}
use str_manager.StreamList.Destinations.{remove}
use str_manager.Streams.Views.{list_at}
use str_manager.Worker.{Worker}
use str_manager.Worker.Lists.{
  extend, Redirected, add_destination_to-Redirected, remove_destination-Redirected,
}
use str_manager.Manager.{Manager, Ptr, add_destination, remove_destination, write}
use str_manager.Manager.Dispatch.{
  add_destination_of, remove_destination_of, add_destination_by, remove_destination_by,
}
use str_manager.Manager.Identity.{add_destination_of-id, remove_destination_of-id}
use str_manager.Manager.Pool.{get_elem?-set}
use str_manager.Manager.Book.{adjust, book}
use str_manager.Manager.Book.Sources.{entry_in-set}

abbrev pub AllForward : Manager → Type 0
AllForward m = (p : Ptr) (w : Worker) → get_elem? m.heap p ≡ some w → w.class ≡ forward

-- Where the book has an entry from.
pub record Booked (m : Manager) (src : ℤ) (u : UdpStream) (ds : List UdpStream) : Type 0 where
  pub owner : Ptr
  pub worker : Worker
  pub list : StreamList
  pub owned : find? src m.src_id_worker ≡ some owner
  pub there : get_elem? m.heap owner ≡ some worker
  pub present : list_at worker.streams src ≡ some list
  pub source : list.source ≡ some u
  pub destinations : list.destinations ≡ ds

pub book-Booked :
    (m : Manager) (src : ℤ) (u : UdpStream) (ds : List UdpStream)
    → book m src ≡ some (some u, ds)
    → Booked m src u ds
book-Booked m src u ds e = elim (Option-cases (find? src m.src_id_worker)) [
  | inl unknown ↦ absurd (ground arith)
  | inr (p, owned) ↦ elim (Option-cases (get_elem? m.heap p)) [
    | inl dangling ↦ absurd (ground arith)
    | inr (w, there) ↦ elim (Option-cases (list_at w.streams src)) [
      | inl absent ↦ absurd (ground arith)
      | inr (l, present) ↦ record {
        owner = p;
        worker = w;
        list = l;
        owned = owned;
        there = there;
        present = present;
        source = ground arith;
        destinations = ground arith;
      }
    ]
  ]
]

-- The call has returned 0, and the book has changed as promised.
pub record Rebooked (m : Manager) (src : ℤ) (f : List UdpStream → List UdpStream) (r : ℤ × Manager)
    : Type 0 where
  pub code : r.0 ≡ pos 0
  pub forwards : AllForward r.1
  pub books : (j : ℤ) → book r.1 j ≡ adjust src f (book m) j

module _ (m : Manager) (src : ℤ) {u : UdpStream} {ds : List UdpStream} (forwards : AllForward m)
    (entry : Booked m src u ds) where
  written-Rebooked :
      (w' : Worker) (f : List UdpStream → List UdpStream)
      → w'.class ≡ entry.worker.class
      → Redirected entry.worker.streams w'.streams src entry.list (f entry.list.destinations)
      → Rebooked m src f (pos 0, write m entry.owner w')
  unfolding write
  written-Rebooked w' f class lists = record {
    code = refl;
    forwards = λ p w e. elim (Bool-cases (Prelude.◌==◌ p entry.owner)) [
      | inl own ↦ ground (
        arith,
        get_elem?-set m.heap entry.owner p w' entry.there,
        class,
        forwards entry.owner entry.worker entry.there,
      )
      | inr other ↦ forwards p w (ground (arith, get_elem?-set m.heap entry.owner p w' entry.there))
    ];
    books = λ j. elim (Option-cases (find? j m.src_id_worker)) [
      | inl free ↦ ground (arith, entry.owned)
      | inr (r, known) ↦ ground (
        arith,
        entry_in-set m.heap entry.owner entry.worker w' entry.there r j,
        lists j,
        entry.there,
        entry.present,
        entry.owned,
        ==_iff j src,
        Prelude.==_iff r entry.owner,
      )
    ];
  }

  pub add_destination-Rebooked :
      {S : Type 0} (sys : System S) (dest_id : ℤ) (ip : String) (port : ℤ) (s : S)
      → Returns
          (add_destination sys m src dest_id ip port s)
          (Rebooked m src (extend (Udp.make sys s dest_id ip port)))
  unfolding add_destination add_destination_of add_destination_by
  add_destination-Rebooked sys dest_id ip port s =
      let (w', ran, lists) =
        add_destination_to-Redirected entry.worker src entry.list u entry.present entry.source sys
          dest_id ip port s in
      let same : add_destination_of sys entry.worker src dest_id ip port s ≡ ok w' =
        ap (λ c. add_destination_by sys c entry.worker src dest_id ip port s)
          (forwards entry.owner entry.worker entry.there)
        ∙ ran in
      rw (entry.owned, add_destination)
        (rw (entry.there, same)
          (
            _,
            refl,
            written-Rebooked w' _
                (add_destination_of-id sys entry.worker src dest_id ip port s same).class_same
                lists,
          ))

  pub remove_destination-Rebooked :
      (dest_id : ℤ) → Returns (remove_destination m src dest_id) (Rebooked m src (remove dest_id))
  unfolding remove_destination remove_destination_of remove_destination_by
  remove_destination-Rebooked dest_id =
      let (w', ran, lists) =
        remove_destination-Redirected entry.worker src entry.list u entry.present entry.source
          dest_id in
      let same : remove_destination_of entry.worker src dest_id ≡ ok w' =
        ap (λ c. remove_destination_by c entry.worker src dest_id)
          (forwards entry.owner entry.worker entry.there)
        ∙ ran in
      rw (entry.owned, remove_destination)
        (rw (entry.there, same)
          (
            _,
            refl,
            written-Rebooked w' _
                (remove_destination_of-id entry.worker src dest_id same).class_same lists,
          ))
