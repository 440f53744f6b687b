-- ===== src/Streams/Abstract.antt =====
-- The tables of streams up to what look-ups see: the order in which a hash map keeps its entries is
-- forgotten, since it is the library's choice.
use native.Mathlib.Nat.{ℕ_set}
use mathlib.Core.Quot
use mathlib.Core.Quot.{Quot, Quot-set}
use str_manager.Prelude.{true, ◌≡◌, fun_ext, refl, ap, ◌∙◌, false, none, some, List, arith}
use str_manager.Int.{pos, ℤ, ◌==◌, ==_iff}
use str_manager.Run.{ok, Returns, ◌>>=◌}
use str_manager.System.{SockAddr}
use str_manager.Table
use str_manager.Table.{Table, find?, put, erase}
use str_manager.Table.Keys.{Key, ◌~◌, int_key}
use str_manager.Table.Laws.{find?-put, find?-erase, find?-congr, index-present}
use str_manager.Udp.{UdpStream, addr_key, sock_addr_cmp, sock_addr_cmp_refl}
use str_manager.StreamList.{StreamList, get_source_sock_addr}
use str_manager.Streams.{Streams, add_stream_list, remove_stream_list, get_stream_list, store}
use str_manager.Streams.Views.{list_at, id_at, route}

-- Two tables give the same answer to every look-up.
abbrev pub Agree : {K V : Type 0} → ⦃key : Key K⦄ → Table K V → Table K V → Type 0
Agree {K} t t' = (k : K) → find? k t ≡ find? k t'

-- Two new entries may be put in either order.
put_comm :
    {K V : Type 0} ⦃key : Key K⦄ (k j : K) (v x : V) (t : Table K V)
    → (k ~ j) ≡ false
    → Agree (put j x (put k v t)) (put k v (put j x t))
put_comm ⦃key = key⦄ k j v x t apart i =
    find?-put j i x (put k v t)
    ∙ ground (
      arith,
      find?-put k i v t,
      find?-put j i x t,
      find?-put k i v (put j x t),
      key.same_trans k i j,
      key.same_symm k i,
    )

-- An entry that is put at a free key and erased leaves the table as it was.
erase-put :
    {K V : Type 0} ⦃key : Key K⦄ (k : K) (v : V) (t : Table K V)
    → find? k t ≡ none
    → Agree (erase k (put k v t)) t
erase-put k v t free i =
    find?-erase k i (put k v t) ∙ ground (arith, find?-put k i v t, find?-congr i k t, free)

abbrev pub AgreeStreams : Streams → Streams → Type 0
AgreeStreams st st' = Agree st.management st'.management × Agree st.forwarding st'.forwarding

-- The abstract tables.
abbrev pub View : Type 0
View = Quot AgreeStreams

abbrev pub view : Streams → View
view = Quot.mk

-- Where a packet from an address goes is a function of the abstract tables.
receivers-Agree : (st st' : Streams) → AgreeStreams st st' → route st ≡ route st'
unfolding route Table.value
receivers-Agree st st' (lists, ids) = fun_ext (λ a. ground (arith, ids a, lists (id_at st a)))

unfoldable receivers : SockAddr → View → List SockAddr
receivers a =
    Quot.lift {β = List SockAddr} (hlevel ℕ_set) (λ st. route st a)
      (λ st st' h. ap (λ r. r a) (receivers-Agree st st' h))

receivers-view : (st : Streams) (a : SockAddr) → receivers a (view st) ≡ route st a
unfolding receivers
receivers-view st a = refl

-- What `addStreamList` makes of the tables.
abbrev entered : Streams → ℤ → StreamList → SockAddr → Streams
entered st id l a = record {
  management = put id (some l) st.management;
  forwarding = put a id st.forwarding;
}

-- Two new entries are found.
both_found :
    {K V : Type 0} ⦃key : Key K⦄ (d : V) (k j : K) (v x : V) (t : Table K V)
    → (k ~ k) ≡ true
    → (j ~ j) ≡ true
    → (k ~ j) ≡ false
    → (Table.value d k (put j x (put k v t)) ≡ v) × (Table.value d j (put j x (put k v t)) ≡ x)
unfolding Table.value
both_found d k j v x t own own2 apart = (
  ground (arith, find?-put j k x (put k v t), find?-put k k v t),
  ground (arith, find?-put j j x (put k v t)),
)

add_stream_list_lem :
    (st : Streams) (id : ℤ) (l : StreamList) (u : UdpStream)
    → l.source ≡ some u
    → add_stream_list st id l ≡ ok (entered st id l u.addr)
unfolding add_stream_list store get_source_sock_addr
add_stream_list_lem st id l u source = rw source refl

module _ (st : Streams) (id : ℤ) (l : StreamList) (u : UdpStream) (source : l.source ≡ some u) where
  -- Lists with different identifiers and sources of different addresses may be entered in either order:
  -- the abstract tables are the same. In both, each list stands at its identifier, and the address of its
  -- source leads to it.
  pub add_stream_list_comm :
      (id2 : ℤ) (l2 : StreamList) (u2 : UdpStream)
      → l2.source ≡ some u2
      → (id == id2) ≡ false
      → sock_addr_cmp u.addr u2.addr ≡ false
      → Returns (add_stream_list st id l >>= (λ st₁. add_stream_list st₁ id2 l2)) λ one.
        Returns (add_stream_list st id2 l2 >>= (λ st₂. add_stream_list st₂ id l)) λ other.
          (view one ≡ view other)
          × (list_at one id ≡ some l)
          × (list_at one id2 ≡ some l2)
          × (id_at one u.addr ≡ id)
          × (id_at one u2.addr ≡ id2)
  add_stream_list_comm id2 l2 u2 source2 apart apart2 = (
    entered (entered st id l u.addr) id2 l2 u2.addr,
    rw (add_stream_list_lem st id l u source)
        (add_stream_list_lem (entered st id l u.addr) id2 l2 u2 source2),
    (
      entered (entered st id2 l2 u2.addr) id l u.addr,
      rw (add_stream_list_lem st id2 l2 u2 source2)
          (add_stream_list_lem (entered st id2 l2 u2.addr) id l u source),
      (
        Quot.sound (
          put_comm id id2 (some l) (some l2) st.management apart,
          put_comm u.addr u2.addr id id2 st.forwarding apart2,
        ),
        stands.0,
        stands.1,
        leads.0,
        leads.1,
      ),
    ),
  )
    where
      stands :
          (list_at (entered (entered st id l u.addr) id2 l2 u2.addr) id ≡ some l)
          × (list_at (entered (entered st id l u.addr) id2 l2 u2.addr) id2 ≡ some l2)
      stands =
          both_found none id id2 (some l) (some l2) st.management (ground (arith, ==_iff id id))
            (ground (arith, ==_iff id2 id2)) apart

      leads :
          (id_at (entered (entered st id l u.addr) id2 l2 u2.addr) u.addr ≡ id)
          × (id_at (entered (entered st id l u.addr) id2 l2 u2.addr) u2.addr ≡ id2)
      leads =
          both_found (pos 0) u.addr u2.addr id id2 st.forwarding (sock_addr_cmp_refl u.addr)
            (sock_addr_cmp_refl u2.addr) apart2

  -- Entering a list at a free identifier and a free address and removing it gives the abstract tables as
  -- they were.
  pub remove-add_stream_list :
      find? id st.management ≡ none
      → find? u.addr st.forwarding ≡ none
      → Returns
          (add_stream_list st id l >>= (λ st₁. remove_stream_list st₁ id))
          λ st'. view st' ≡ view st
  unfolding remove_stream_list get_stream_list get_source_sock_addr
  remove-add_stream_list free free2 =
      let there : find? id (put id (some l) st.management) ≡ some (some l) =
        find?-put id id (some l) st.management ∙ ground (arith, ==_iff id id) in
      (
        record {
          management = erase id (put id (some l) st.management);
          forwarding = erase u.addr (put u.addr id st.forwarding);
        },
        rw
            (
              add_stream_list_lem st id l u source,
              index-present none id (put id (some l) st.management) there,
              source,
            )
            refl,
        Quot.sound
            (erase-put id (some l) st.management free, erase-put u.addr id st.forwarding free2),
      )
