-- ===== src/Streams/Relink.antt =====
-- A list whose destinations change, and its source does not.
use str_manager.Prelude.{◌≡◌, refl, sym, ◌∙◌, some, arith, if◌then◌else◌}
use str_manager.Int.{ℤ, ◌==◌, ==_iff}
use str_manager.System.{SockAddr}
use str_manager.Run.{ok}
use str_manager.Udp.{UdpStream}
use str_manager.StreamList.{StreamList}
use str_manager.Streams.{Streams, add_stream_list, store}
use str_manager.Streams.Views.{list_at, id_at, SameStreams, Linked, Keyed, add_stream_list-Linked}
use str_manager.Streams.Store.{store-lists, store-ids, store-Keyed, store-IsLinked}
use str_manager.Streams.Routing.{IsLinked, relinked-IsLinked, SameStreams-IsLinked, id_at-congr}

pub SameStreams-refl : (st : Streams) → SameStreams st st
SameStreams-refl st = record {
  keyed = λ d. d;
  weights = λ f. refl;
  lists = λ j. refl;
  ids = λ a. refl;
}

-- The list at `id` is `l`, the addresses lead where they did, and all else is as before.
pub record Relinked (st st' : Streams) (id : ℤ) (l : StreamList) : Type 0 where
  pub linked : IsLinked st'
  pub keyed : Keyed st → Keyed st'
  pub lists : (j : ℤ) → list_at st' j ≡ (if j == id then some l else list_at st j)
  pub ids : (a : SockAddr) → id_at st' a ≡ id_at st a

module _ {st : Streams} (inv : IsLinked st) (id : ℤ) (old : StreamList) (u : UdpStream)
    (present : list_at st id ≡ some old) (source : old.source ≡ some u) where
  pub same-Relinked : {st' : Streams} → SameStreams st st' → Relinked st st' id old
  same-Relinked same = record {
    linked = SameStreams-IsLinked inv same;
    keyed = same.keyed;
    lists = λ j. same.lists j ∙ ground (arith, present, ==_iff j id);
    ids = same.ids;
  }

  pub Linked-Relinked :
      {st' : Streams} (l : StreamList)
      → l.source ≡ some u
      → Linked st st' id l u.addr
      → Relinked st st' id l
  Linked-Relinked l same linked = record {
    linked = relinked-IsLinked inv id l u same present source linked;
    keyed = linked.keyed;
    lists = linked.lists;
    ids = λ a.
        linked.ids a ∙ ground (arith, id_at-congr st a u.addr, inv.led id u.addr, present, source);
  }

  pub add_stream_list-Relinked :
      (l : StreamList)
      → l.source ≡ some u
      → (st' : Streams) × (add_stream_list st id l ≡ ok st') × Relinked st st' id l
  add_stream_list-Relinked l same =
      let (st', ran, linked) = add_stream_list-Linked st id l u same in
      (st', ran, Linked-Relinked l same linked)

  -- A write through the pointer enters no address, and needs none.
  pub store-Relinked : (l : StreamList) → l.source ≡ some u → Relinked st (store st id l) id l
  store-Relinked l same = record {
    linked = store-IsLinked st id old l present (same ∙ sym source) inv;
    keyed = store-Keyed st id l;
    lists = store-lists st id l;
    ids = store-ids st id l;
  }

-- A read before a change makes no difference to it.
pub after-Relinked :
    {st st₁ st' : Streams} {id : ℤ} {l : StreamList}
    → SameStreams st st₁
    → Relinked st₁ st' id l
    → Relinked st st' id l
after-Relinked same r = record {
  linked = r.linked;
  keyed = λ d. r.keyed (same.keyed d);
  lists = λ j. r.lists j ∙ ground (arith, same.lists j);
  ids = λ a. r.ids a ∙ same.ids a;
}
