-- ===== src/Streams/Views.antt =====
-- What a reader of the two tables sees: the list with an identifier, the identifier of an address,
-- and the addresses to which a packet from an address is sent.
use str_manager.Table.Totals.{
  Distinct, put-Distinct, erase-Distinct, index-Distinct, total, share, total-put, total-erase,
  total-index, share-le-total,
}
use str_manager.Prelude.{
  ℕ, ◌+◌, ◌≤◌, ◌≡◌, refl, ap, ◌∙◌, true, Option, none, some, List, [], arith, map, if◌then◌else◌,
}
use str_manager.Int.{ℤ, pos, ◌==◌}
use str_manager.Run.{ok}
use str_manager.System.{SockAddr}
use str_manager.Table
use str_manager.Table.Keys.{Key, ◌~◌, int_key}
use str_manager.Table.Laws.{
  find?-put, find?-erase, find?-index, find?-congr, index-value, value_lem,
}
use str_manager.Udp.{UdpStream, addr_key, sock_addr_cmp}
use str_manager.StreamList.{StreamList, get_source_sock_addr}
use str_manager.Streams.{
  Streams, get_stream_list, get_list_id_by_socket, get_stream_list_by_socket, add_stream_list,
  remove_stream_list,
}

-- The laws of tables once more for the value that `operator[]` reads.
module _ {K V : Type 0} ⦃key : Key K⦄ (d : V) where
  pub value-put :
      (k j : K) (v : V) (t : Table.Table K V)
      → Table.value d j (Table.put k v t) ≡ (if j ~ k then v else Table.value d j t)
  value-put k j v t =
      rw (value_lem d j (Table.put k v t), find?-put k j v t) (ground (arith, value_lem d j t))

  pub value-erase :
      (k j : K) (t : Table.Table K V)
      → Table.value d j (Table.erase k t) ≡ (if j ~ k then d else Table.value d j t)
  value-erase k j t =
      rw (value_lem d j (Table.erase k t), find?-erase k j t) (ground (arith, value_lem d j t))

  -- A read leaves every value as it was.
  pub value-index :
      (k j : K) (t : Table.Table K V) → Table.value d j (Table.index d k t).1 ≡ Table.value d j t
  value-index k j t =
      rw (value_lem d j (Table.index d k t).1, find?-index d k j t)
        (ground (arith, value_lem d j t, value_lem d k t, find?-congr j k t))

  pub value-congr :
      (k j : K) (t : Table.Table K V) → (k ~ j) ≡ true → Table.value d k t ≡ Table.value d j t
  value-congr k j t h = rw (value_lem d k t, value_lem d j t, find?-congr k j t h)

abbrev pub list_at : Streams → ℤ → Option StreamList
list_at st id = Table.value none id st.management

abbrev pub id_at : Streams → SockAddr → ℤ
id_at st addr = Table.value (pos 0) addr st.forwarding

abbrev pub targets : Option StreamList → List SockAddr
targets none = []
targets (some l) = map (λ u. u.addr) l.destinations

-- Where a packet from `addr` goes.
unfoldable pub route : Streams → SockAddr → List SockAddr
route st addr = targets (list_at st (id_at st addr))

-- A weight of lists that counts no null pointer.
pub record Weight : Type 0 where
  pub weigh : Option StreamList → ℕ
  pub null_weight : weigh none ≡ 0

abbrev pub weight : Weight → Streams → ℕ
weight f st = total f.weigh st.management

abbrev pub Keyed : Streams → Type 0
Keyed st = Distinct st.management

pub record SameStreams (st st' : Streams) : Type 0 where
  pub keyed : Keyed st → Keyed st'
  pub weights : (f : Weight) → weight f st' ≡ weight f st
  pub lists : (id : ℤ) → list_at st' id ≡ list_at st id
  pub ids : (addr : SockAddr) → id_at st' addr ≡ id_at st addr

-- The list at `id` is now `l`, and its address leads to it; all else is as before.
pub record Linked (st st' : Streams) (id : ℤ) (l : StreamList) (addr : SockAddr) : Type 0 where
  pub keyed : Keyed st → Keyed st'
  pub weights :
      (f : Weight) → weight f st' + f.weigh (list_at st id) ≡ weight f st + f.weigh (some l)
  pub lists : (j : ℤ) → list_at st' j ≡ (if j == id then some l else list_at st j)
  pub ids : (a : SockAddr) → id_at st' a ≡ (if sock_addr_cmp a addr then id else id_at st a)

-- The list at `id` is gone, and the address leads nowhere.
pub record Unlinked (st st' : Streams) (id : ℤ) (addr : SockAddr) : Type 0 where
  pub keyed : Keyed st → Keyed st'
  pub weights : Keyed st → (f : Weight) → weight f st' + f.weigh (list_at st id) ≡ weight f st
  pub lists : (j : ℤ) → list_at st' j ≡ (if j == id then none else list_at st j)
  pub ids : (a : SockAddr) → id_at st' a ≡ (if sock_addr_cmp a addr then pos 0 else id_at st a)

-- The methods that read give what a reader sees, and change nothing that one sees.
pub get_stream_list_lem :
    (st : Streams) (id : ℤ)
    → ((get_stream_list st id).0 ≡ list_at st id) × SameStreams st (get_stream_list st id).1
unfolding get_stream_list
get_stream_list_lem st id = (
  index-value none id st.management,
  record {
    keyed = index-Distinct none id st.management;
    weights = λ f. total-index f.weigh none id st.management f.null_weight;
    lists = λ j. value-index none id j st.management;
    ids = λ a. refl;
  },
)

pub get_list_id_lem :
    (st : Streams) (addr : SockAddr)
    → ((get_list_id_by_socket st addr).0 ≡ id_at st addr)
      × SameStreams st (get_list_id_by_socket st addr).1
unfolding get_list_id_by_socket
get_list_id_lem st addr = (
  index-value (pos 0) addr st.forwarding,
  record {
    keyed = λ d. d;
    weights = λ f. refl;
    lists = λ j. refl;
    ids = λ a. value-index (pos 0) addr a st.forwarding;
  },
)

pub SameStreams-trans :
    {st st₁ st₂ : Streams} → SameStreams st st₁ → SameStreams st₁ st₂ → SameStreams st st₂
SameStreams-trans a b = record {
  keyed = λ d. b.keyed (a.keyed d);
  weights = λ f. b.weights f ∙ a.weights f;
  lists = λ j. b.lists j ∙ a.lists j;
  ids = λ x. b.ids x ∙ a.ids x;
}

pub get_by_socket_lem :
    (st : Streams) (addr : SockAddr)
    → ((get_stream_list_by_socket st addr).0 ≡ list_at st (id_at st addr))
      × SameStreams st (get_stream_list_by_socket st addr).1
unfolding get_stream_list_by_socket
get_by_socket_lem st addr =
    let (id, same) = get_list_id_lem st addr in
    let st₁ = (get_list_id_by_socket st addr).1 in
    let (got, same₂) = get_stream_list_lem st₁ (get_list_id_by_socket st addr).0 in
    (got ∙ same.lists _ ∙ ap (list_at st) id, SameStreams-trans same same₂)

pub share-list_at :
    (f : Weight) (st : Streams) (id : ℤ)
    → share f.weigh (Table.find? id st.management) ≡ f.weigh (list_at st id)
share-list_at f st id = rw (value_lem none id st.management) (ground (arith, f.null_weight))

-- The list at an identifier counts in the whole.
pub weigh-le-weight : (f : Weight) (st : Streams) (id : ℤ) → f.weigh (list_at st id) ≤ weight f st
weigh-le-weight f st id =
    omega (arith, share-le-total f.weigh id st.management, share-list_at f st id)

source_addr :
    (l : StreamList) (u : UdpStream) → l.source ≡ some u → get_source_sock_addr l ≡ ok u.addr
unfolding get_source_sock_addr
source_addr l u e = rw e

pub add_stream_list-Linked :
    (st : Streams) (id : ℤ) (l : StreamList) (u : UdpStream)
    → l.source ≡ some u
    → (st' : Streams) × (add_stream_list st id l ≡ ok st') × Linked st st' id l u.addr
unfolding add_stream_list
add_stream_list-Linked st id l u e = (
  record {
    management = Table.put id (some l) st.management;
    forwarding = Table.put u.addr id st.forwarding;
  },
  rw (source_addr l u e),
  record {
    keyed = put-Distinct id (some l) st.management;
    weights =
        λ f. omega (arith, total-put f.weigh id (some l) st.management, share-list_at f st id);
    lists = λ j. value-put none id j (some l) st.management;
    ids = λ a. value-put (pos 0) u.addr a id st.forwarding;
  },
)

pub remove_stream_list-Unlinked :
    (st : Streams) (id : ℤ) (l : StreamList) (u : UdpStream)
    → list_at st id ≡ some l
    → l.source ≡ some u
    → (st' : Streams) × (remove_stream_list st id ≡ ok st') × Unlinked st st' id u.addr
unfolding remove_stream_list
remove_stream_list-Unlinked st id l u e h =
    let (got, same) = get_stream_list_lem st id in
    let st₁ = (get_stream_list st id).1 in
    (
      record {
        management = Table.erase id st₁.management;
        forwarding = Table.erase u.addr st₁.forwarding;
      },
      rw (got, e, source_addr l u h),
      record {
        keyed = λ d. erase-Distinct id st₁.management (same.keyed d);
        weights = λ d f. omega (
          arith,
          total-erase f.weigh id st₁.management (same.keyed d),
          share-list_at f st₁ id,
          same.weights f,
          ap f.weigh (same.lists id),
        );
        lists = λ j.
            value-erase none id j st₁.management
            ∙ ap (λ o. if j == id then none else o) (same.lists j);
        ids = λ a.
            value-erase (pos 0) u.addr a st₁.forwarding
            ∙ ap (λ o. if sock_addr_cmp a u.addr then pos 0 else o) (same.ids a);
      },
    )

-- A read before a change makes no difference to it.
pub same-Linked :
    {st st₁ st' : Streams} {id : ℤ} {l : StreamList} {addr : SockAddr}
    → SameStreams st st₁
    → Linked st₁ st' id l addr
    → Linked st st' id l addr
same-Linked {id} {addr} same linked = record {
  keyed = λ d. linked.keyed (same.keyed d);
  weights = λ f. omega (arith, linked.weights f, same.weights f, ap f.weigh (same.lists id));
  lists = λ j. linked.lists j ∙ ground (arith, same.lists j);
  ids = λ a. linked.ids a ∙ ground (arith, same.ids a);
}

pub same-Unlinked :
    {st st₁ st' : Streams} {id : ℤ} {addr : SockAddr}
    → SameStreams st st₁
    → Unlinked st₁ st' id addr
    → Unlinked st st' id addr
same-Unlinked {id} {addr} same unlinked = record {
  keyed = λ d. unlinked.keyed (same.keyed d);
  weights = λ d f.
      omega (arith, unlinked.weights (same.keyed d) f, same.weights f, ap f.weigh (same.lists id));
  lists = λ j. unlinked.lists j ∙ ground (arith, same.lists j);
  ids = λ a. unlinked.ids a ∙ ground (arith, same.ids a);
}
