-- ===== src/Streams/Routing.antt =====
-- The well-formedness of the two tables: every list is led to by its source's address, and every
-- address that leads anywhere is the source of the list it leads to. The identifier 0 stands for
-- "no list" in `forwarding`, so no list may have it.
use str_manager.Prelude.{
  ◌≡◌, refl, ap, sym, ◌∙◌, Bool, true, false, Option, none, some, [], arith, map, Bool-cases, ◌⊎◌,
  inl, inr, if◌then◌else◌,
}
use str_manager.Int.{ℤ, pos, ◌==◌, ==_iff}
use str_manager.System.{SockAddr}
use str_manager.Table
use str_manager.Udp.{UdpStream, addr_key, sock_addr_cmp, sock_addr_cmp_refl}
use str_manager.StreamList.{StreamList}
use str_manager.Streams.{Streams, empty}
use str_manager.Streams.Views.{
  list_at, id_at, targets, route, SameStreams, Linked, Unlinked, value-congr,
}

abbrev pub stream_addr : Option UdpStream → Option SockAddr
stream_addr none = none
stream_addr (some u) = some u.addr

abbrev pub source_addr : Option StreamList → Option SockAddr
source_addr none = none
source_addr (some l) = stream_addr l.source

-- The address is that of the source, as the table's predicate compares them.
abbrev pub comes_from : Option SockAddr → SockAddr → Bool
comes_from none a = false
comes_from (some b) a = sock_addr_cmp a b

abbrev pub has_source : Option StreamList → Bool
has_source none = true
has_source (some l) = elim l.source [ none ↦ false | some _ ↦ true ]

pub record IsLinked (st : Streams) : Type 0 where
  pub no_zero : list_at st (pos 0) ≡ none
  pub sourced : (id : ℤ) → has_source (list_at st id) ≡ true
  pub led : (id : ℤ) (a : SockAddr) → source_addr (list_at st id) ≡ some a → id_at st a ≡ id
  pub known :
      (a : SockAddr)
      → (id_at st a == pos 0) ≡ false
      → comes_from (source_addr (list_at st (id_at st a))) a ≡ true

-- Addresses that the table takes for one have one identifier.
pub id_at-congr :
    (st : Streams) (a b : SockAddr) → sock_addr_cmp a b ≡ true → id_at st a ≡ id_at st b
id_at-congr st a b h = value-congr (pos 0) a b st.forwarding h

pub empty-IsLinked : IsLinked empty
unfolding Table.value Table.find?
empty-IsLinked = record {
  no_zero = refl;
  sourced = λ id. refl;
  led = λ id a e. cc;
  known = λ a h. cc;
}

module _ {st st' : Streams} (inv : IsLinked st) (id : ℤ) (l : StreamList) (u : UdpStream)
    (source : l.source ≡ some u) where
  -- A new list may be entered under a new identifier other than 0 and a new address.
  pub Linked-IsLinked :
      (id == pos 0) ≡ false
      → list_at st id ≡ none
      → id_at st u.addr ≡ pos 0
      → Linked st st' id l u.addr
      → IsLinked st'
  Linked-IsLinked nonzero absent new linked = record {
    no_zero =
        linked.lists (pos 0) ∙ ground (arith, inv.no_zero, ==_iff (pos 0) id, ==_iff id (pos 0));
    sourced = λ j. rw (linked.lists j) (ground (arith, inv.sourced j));
    led = λ j a e.
        linked.ids a
        ∙ ground (
          arith,
          linked.lists j,
          inv.led j a,
          inv.no_zero,
          id_at-congr st a u.addr,
          sock_addr_cmp_refl u.addr,
          ==_iff j id,
        );
    known = λ a h.
        ground
          (arith, linked.ids a, linked.lists (id_at st' a), inv.known a, ==_iff (id_at st' a) id);
  }

  -- A list may be entered again under its identifier, as long as its source stays.
  pub relinked-IsLinked :
      {old : StreamList}
      → list_at st id ≡ some old
      → old.source ≡ some u
      → Linked st st' id l u.addr
      → IsLinked st'
  relinked-IsLinked {old} present same linked = record {
    no_zero = linked.lists (pos 0) ∙ ground (arith, inv.no_zero, ==_iff (pos 0) id);
    sourced = λ j. rw (linked.lists j) (ground (arith, inv.sourced j));
    led = λ j a e.
        linked.ids a
        ∙ ground (
          arith,
          linked.lists j,
          inv.led j a,
          inv.led id u.addr,
          id_at-congr st a u.addr,
          sock_addr_cmp_refl u.addr,
          ==_iff j id,
        );
    known = λ a h.
        ground
          (arith, linked.ids a, linked.lists (id_at st' a), inv.known a, ==_iff (id_at st' a) id);
  }

module _ {st st' : Streams} (inv : IsLinked st) (id : ℤ) (l : StreamList) (u : UdpStream)
    (present : list_at st id ≡ some l) (source : l.source ≡ some u) where
  -- A list may be taken out.
  pub Unlinked-IsLinked : Unlinked st st' id u.addr → IsLinked st'
  Unlinked-IsLinked unlinked = record {
    no_zero = unlinked.lists (pos 0) ∙ ground (arith, inv.no_zero);
    sourced = λ j. rw (unlinked.lists j) (ground (arith, inv.sourced j));
    led = λ j a e.
        unlinked.ids a
        ∙ ground (
          arith,
          unlinked.lists j,
          inv.led j a,
          inv.led id u.addr,
          id_at-congr st a u.addr,
          ==_iff j id,
        );
    known = λ a h.
        ground (
          arith,
          unlinked.ids a,
          unlinked.lists (id_at st' a),
          inv.known a,
          ==_iff (id_at st' a) id,
        );
  }

pub SameStreams-IsLinked : {st st' : Streams} → IsLinked st → SameStreams st st' → IsLinked st'
SameStreams-IsLinked inv same = record {
  no_zero = same.lists (pos 0) ∙ inv.no_zero;
  sourced = λ id. rw (same.lists id) (inv.sourced id);
  led = λ id a e. same.ids a ∙ inv.led id a (ap source_addr (sym (same.lists id)) ∙ e);
  known = λ a h.
      rw (same.ids a, same.lists (id_at _ a))
        (inv.known a (ap (λ i. i == pos 0) (sym (same.ids a)) ∙ h));
}

module _ {st st' : Streams} where
  pub route-same : SameStreams st st' → (a : SockAddr) → route st' a ≡ route st a
  unfolding route
  route-same same a = ap targets (same.lists (id_at st' a) ∙ ap (list_at st) (same.ids a))

  -- Once a list is linked, its own packets go to its destinations, and all others as before.
  pub route-Linked :
      IsLinked st
      → (id : ℤ) (l : StreamList) (u : UdpStream) → (id == pos 0) ≡ false
      → (source_addr (list_at st id) ≡ none) ⊎ (source_addr (list_at st id) ≡ some u.addr)
      → Linked st st' id l u.addr
      → (a : SockAddr)
      → route st' a
        ≡ (if sock_addr_cmp a u.addr then map (λ d. d.addr) l.destinations else route st a)
  unfolding route
  route-Linked inv id l u nonzero before linked a = elim (Bool-cases (sock_addr_cmp a u.addr)) [
    | inl own ↦
        let led : id_at st' a ≡ id = linked.ids a ∙ rw own in
        let there : list_at st' (id_at st' a) ≡ some l =
          linked.lists (id_at st' a) ∙ ground (arith, led, ==_iff (id_at st' a) id) in
        rw (there, own)
    | inr other ↦
        let led : id_at st' a ≡ id_at st a = linked.ids a ∙ rw other in
        let elsewhere : (id_at st a == id) ≡ false =
          ground (arith, inv.known a, other, ==_iff (id_at st a) id) in
        let there : list_at st' (id_at st' a) ≡ list_at st (id_at st a) =
          ap (list_at st') led ∙ linked.lists (id_at st a) ∙ rw elsewhere in
        rw (there, other)
  ]

  -- Once a list is unlinked, its source's packets go nowhere, and all others as before.
  pub route-Unlinked :
      IsLinked st
      → (id : ℤ) (u : UdpStream) → source_addr (list_at st id) ≡ some u.addr
      → Unlinked st st' id u.addr
      → (a : SockAddr) → route st' a ≡ (if sock_addr_cmp a u.addr then [] else route st a)
  unfolding route
  route-Unlinked inv id u before unlinked a = elim (Bool-cases (sock_addr_cmp a u.addr)) [
    | inl own ↦
        let led : id_at st' a ≡ pos 0 = unlinked.ids a ∙ rw own in
        let gone : list_at st' (id_at st' a) ≡ none =
          ap (list_at st') led ∙ unlinked.lists (pos 0) ∙ ground (arith, inv.no_zero) in
        rw (gone, own)
    | inr other ↦
        let led : id_at st' a ≡ id_at st a = unlinked.ids a ∙ rw other in
        let nonzero : (id == pos 0) ≡ false =
          ground (arith, inv.no_zero, before, ==_iff id (pos 0)) in
        let elsewhere : (id_at st a == id) ≡ false =
          ground (arith, inv.known a, other, before, nonzero, ==_iff (id_at st a) id) in
        let there : list_at st' (id_at st' a) ≡ list_at st (id_at st a) =
          ap (list_at st') led ∙ unlinked.lists (id_at st a) ∙ rw elsewhere in
        rw (there, other)
  ]

-- A packet from an address that is no source goes nowhere.
pub route-unknown :
    {st : Streams} → IsLinked st → (a : SockAddr) → id_at st a ≡ pos 0 → route st a ≡ []
unfolding route
route-unknown inv a h = rw (h, inv.no_zero)

-- A packet from a source goes to the destinations of its list.
pub route-source :
    {st : Streams} (inv : IsLinked st) (id : ℤ) (l : StreamList) (u : UdpStream)
    → list_at st id ≡ some l
    → l.source ≡ some u
    → (a : SockAddr) → sock_addr_cmp a u.addr ≡ true
    → route st a ≡ map (λ d. d.addr) l.destinations
unfolding route
route-source {st} inv id l u present source a same =
    let led : id_at st a ≡ id =
      id_at-congr st a u.addr same ∙ inv.led id u.addr (ground (arith, present, source)) in
    rw (led, present)
