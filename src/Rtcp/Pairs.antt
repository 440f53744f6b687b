-- ===== src/Rtcp/Pairs.antt =====
-- A source of an RTCP worker as a reader of the tables sees it: a list at its identifier and one at
-- the next.
use str_manager.Prelude.{
  ◌≡◌, refl, ap, ◌∙◌, inl, inr, false, some, List, arith, Bool-cases, if◌then◌else◌,
}
use str_manager.Int.{ℤ, pos, ◌==◌, ==_iff, inc, inc-ne}
use str_manager.System.{SockAddr}
use str_manager.Udp.{UdpStream, sock_addr_cmp}
use str_manager.StreamList.{StreamList}
use str_manager.Streams.{Streams, get_stream_list}
use str_manager.Streams.Views.{
  SameStreams-trans, get_stream_list_lem, list_at, id_at, targets, route, SameStreams,
}
use str_manager.Streams.Routing.{IsLinked, route-source}
use str_manager.Streams.Relink.{Relinked}
use str_manager.Worker.Destinations.{addrs}

-- Both lists of the pair have these destinations, and all other lists and routes are as before.
pub record Paired (st st' : Streams) (id : ℤ) (l l2 : StreamList) (u u2 : UdpStream)
    (ds ds2 : List UdpStream) : Type 0 where
  pub linked : IsLinked st'
  pub lists :
      (j : ℤ)
      → list_at st' j ≡ (
          if j == inc id
          then some (record l2 { destinations = ds2 })
          else if j == id
          then some (record l { destinations = ds })
          else list_at st j)
  pub routes :
      (a : SockAddr)
      → route st' a ≡ (
          if sock_addr_cmp a u.addr
          then addrs ds
          else if sock_addr_cmp a u2.addr
          then addrs ds2
          else route st a)

-- Reading both lists finds them, and changes nothing that a reader sees.
abbrev pub both_read : Streams → ℤ → Streams
both_read st id = (get_stream_list (get_stream_list st id).1 (inc id)).1

pub both_read_same : (st : Streams) (id : ℤ) → SameStreams st (both_read st id)
both_read_same st id =
    SameStreams-trans (get_stream_list_lem st id).1
      (get_stream_list_lem (get_stream_list st id).1 (inc id)).1

pub first_read : (st : Streams) (id : ℤ) → (get_stream_list st id).0 ≡ list_at st id
first_read st id = (get_stream_list_lem st id).0

pub second_read :
    (st : Streams) (id : ℤ)
    → (get_stream_list (get_stream_list st id).1 (inc id)).0 ≡ list_at st (inc id)
second_read st id =
    (get_stream_list_lem (get_stream_list st id).1 (inc id)).0
    ∙ (get_stream_list_lem st id).1.lists (inc id)

module _ {st : Streams} (inv : IsLinked st) (id : ℤ) (l l2 : StreamList) (u u2 : UdpStream)
    (present : list_at st id ≡ some l) (source : l.source ≡ some u)
    (present2 : list_at st (inc id) ≡ some l2) (source2 : l2.source ≡ some u2) where
  abbrev first : List UdpStream → StreamList
  first ds = record l { destinations = ds }

  abbrev second : List UdpStream → StreamList
  second ds = record l2 { destinations = ds }

  -- The second list is still there after a change of the first.
  pub still_present :
      {st₁ : Streams} (ds : List UdpStream)
      → Relinked st st₁ id (first ds)
      → list_at st₁ (inc id) ≡ some l2
  still_present ds r = r.lists (inc id) ∙ ground (arith, inc-ne id, present2)

  -- Packets from any other address go where they went.
  elsewhere :
      {st₁ st' : Streams} (ds ds2 : List UdpStream)
      → Relinked st st₁ id (first ds)
      → Relinked st₁ st' (inc id) (second ds2)
      → ((j : ℤ)
          → list_at st' j ≡ (
              if j == inc id
              then some (second ds2)
              else if j == id
              then some (first ds)
              else list_at st j))
      → (a : SockAddr) → sock_addr_cmp a u.addr ≡ false
      → sock_addr_cmp a u2.addr ≡ false
      → route st' a ≡ route st a
  unfolding route
  elsewhere {st₁} {st'} ds ds2 r r2 lists a other other2 =
      ap (λ i. targets (list_at st' i)) (r2.ids a ∙ r.ids a)
      ∙ ap targets (
          lists (id_at st a)
          ∙ ground (
            arith,
            inv.no_zero,
            inv.known a,
            present,
            source,
            present2,
            source2,
            other,
            other2,
            ==_iff (id_at st a) id,
            ==_iff (id_at st a) (inc id),
            ==_iff id (pos 0),
            ==_iff (inc id) (pos 0),
            ==_iff (id_at st a) (pos 0),
          ))

  pub pair-Paired :
      {st₁ st' : Streams} (ds ds2 : List UdpStream)
      → Relinked st st₁ id (first ds)
      → Relinked st₁ st' (inc id) (second ds2)
      → Paired st st' id l l2 u u2 ds ds2
  pair-Paired {st₁} {st'} ds ds2 r r2 = record {
    linked = r2.linked;
    lists = lists;
    routes = λ a. elim (Bool-cases (sock_addr_cmp a u.addr)) [
      | inl own ↦
          route-source r2.linked id (first ds) u
            (lists id
              ∙ ground (arith, ==_iff id id, inc-ne id, ==_iff id (inc id), ==_iff (inc id) id))
            source a own
          ∙ rw own refl
      | inr other ↦ elim (Bool-cases (sock_addr_cmp a u2.addr)) [
        | inl own2 ↦
            route-source r2.linked (inc id) (second ds2) u2
              (lists (inc id) ∙ ground (arith, ==_iff (inc id) (inc id))) source2 a own2
            ∙ rw (other, own2) refl
        | inr other2 ↦ elsewhere ds ds2 r r2 lists a other other2 ∙ rw (other, other2) refl
      ]
    ];
  }
    where
      lists :
          (j : ℤ)
          → list_at st' j ≡ (
              if j == inc id
              then some (second ds2)
              else if j == id
              then some (first ds)
              else list_at st j)
      lists j = r2.lists j ∙ ground (arith, r.lists j)
