-- ===== src/Streams/Store.antt =====
-- A list that is overwritten through the pointer at its identifier, as a reader of the tables sees it.
use str_manager.Table.Totals.{put-Distinct, total-put}
use str_manager.Prelude.{
  ◌+◌, ◌≡◌, refl, ◌∙◌, inl, inr, Bool-cases, none, some, arith, if◌then◌else◌,
}
use str_manager.Int.{==_iff, pos, ℤ, ◌==◌}
use str_manager.System.{SockAddr}
use str_manager.Table.Keys.{int_key}
use str_manager.Udp.{addr_key}
use str_manager.StreamList.{StreamList}
use str_manager.Streams.{Streams, store}
use str_manager.Streams.Routing.{IsLinked}
use str_manager.Streams.Views.{
  route, list_at, id_at, Weight, weight, Keyed, share-list_at, value-put,
}

-- A list that stands at `id` is overwritten.
pub store-lists :
    (st : Streams) (id : ℤ) (l : StreamList) (j : ℤ)
    → list_at (store st id l) j ≡ (if j == id then some l else list_at st j)
unfolding store
store-lists st id l j = value-put none id j (some l) st.management

pub store-ids :
    (st : Streams) (id : ℤ) (l : StreamList) (a : SockAddr) → id_at (store st id l) a ≡ id_at st a
unfolding store
store-ids st id l a = refl

pub store-Keyed : (st : Streams) (id : ℤ) (l : StreamList) → Keyed st → Keyed (store st id l)
unfolding store
store-Keyed st id l = put-Distinct id (some l) st.management

pub store-weights :
    (st : Streams) (id : ℤ) (l : StreamList) (f : Weight)
    → weight f (store st id l) + f.weigh (list_at st id) ≡ weight f st + f.weigh (some l)
unfolding store
store-weights st id l f =
    omega (arith, total-put f.weigh id (some l) st.management, share-list_at f st id)

-- A list that differs from the one before in neither source nor destinations changes no route.
module _ (st : Streams) (id : ℤ) (l l' : StreamList) (present : list_at st id ≡ some l)
    (source : l'.source ≡ l.source) where
  pub store-IsLinked : IsLinked st → IsLinked (store st id l')
  store-IsLinked inv = record {
    no_zero = store-lists st id l' (pos 0) ∙ ground (arith, inv.no_zero, ==_iff (pos 0) id);
    sourced = λ j. rw (store-lists st id l' j) (ground (arith, inv.sourced j, inv.sourced id));
    led = λ j a e.
        store-ids st id l' a
        ∙ ground (arith, store-lists st id l' j, inv.led j a, inv.led id a, ==_iff j id);
    known = λ a h. ground (
      arith,
      store-ids st id l' a,
      store-lists st id l' (id_at st a),
      inv.known a,
      ==_iff (id_at st a) id,
    );
  }

  pub store-route :
      l'.destinations ≡ l.destinations → (a : SockAddr) → route (store st id l') a ≡ route st a
  unfolding route
  store-route same a =
      rw (store-ids st id l' a, store-lists st id l' (id_at st a))
        (elim (Bool-cases (id_at st a == id)) [
          | inl hit ↦ rw (hit, (==_iff (id_at st a) id).0 hit, present, same)
          | inr miss ↦ rw miss
        ])
