-- ===== src/Rtcp/Sources.antt =====
-- `addSource` of RtcpWorker.cpp, on the tables of streams.
use str_manager.Prelude.{
  zero, suc, ◌≡◌, ◌≢◌, refl, ap, ◌∙◌, inl, inr, Bool, false, not, none, some, String, [], ◌&&◌,
  arith, Bool-cases, if◌then◌else◌,
}
use str_manager.Int.{ℤ, pos, negsuc, ◌==◌, inc, inc-ne, truthy, to_u16, to_u16-lt}
use str_manager.Run.{Returns}
use str_manager.System.{System, SystemLaws, SockAddr}
use str_manager.Udp
use str_manager.Udp.{UdpStream, sock_addr_cmp, sock_addr_cmp_symm}
use str_manager.StreamList
use str_manager.StreamList.{StreamList, get_source_port}
use str_manager.Ports.{Ports}
use str_manager.Streams.{Streams, get_list_id_by_socket}
use str_manager.Streams.Views.{
  list_at, id_at, route, SameStreams, SameStreams-trans, Linked, get_list_id_lem,
  add_stream_list-Linked, same-Linked,
}
use str_manager.Streams.Routing.{
  IsLinked, SameStreams-IsLinked, Linked-IsLinked, route-Linked, route-same, source_addr,
}
use str_manager.Worker.{Worker}
use str_manager.Rtcp.{add_socket, new_list, add_source}
use str_manager.Rtcp.Pairs.{Paired}

-- The same tables, for a reader.
pub record Unchanged (st st' : Streams) : Type 0 where
  pub linked : IsLinked st'
  pub lists : (j : ℤ) → list_at st' j ≡ list_at st j
  pub routes : (a : SockAddr) → route st' a ≡ route st a

same-Unchanged : {st st' : Streams} → IsLinked st → SameStreams st st' → Unchanged st st'
same-Unchanged inv same = record {
  linked = SameStreams-IsLinked inv same;
  lists = same.lists;
  routes = route-same same;
}

module _ {st : Streams} (inv : IsLinked st) (id : ℤ) (l l2 : StreamList) (u u2 : UdpStream) where
  -- Two new lists are entered one after the other.
  pub both-Paired :
      {st₁ st' : Streams}
      → l.source ≡ some u
      → l2.source ≡ some u2
      → l.destinations ≡ []
      → l2.destinations ≡ []
      → (id == pos 0) ≡ false
      → (inc id == pos 0) ≡ false
      → list_at st id ≡ none
      → list_at st (inc id) ≡ none
      → id_at st u.addr ≡ pos 0
      → id_at st u2.addr ≡ pos 0
      → sock_addr_cmp u2.addr u.addr ≡ false
      → Linked st st₁ id l u.addr
      → Linked st₁ st' (inc id) l2 u2.addr
      → Paired st st' id l l2 u u2 [] []
  both-Paired {st₁} {st'} source source2 bare bare2 nonzero nonzero2 absent absent2 new new2 apart
        linked linked2 =
      record {
        linked =
            Linked-IsLinked inv₁ (inc id) l2 u2 source2 nonzero2 absent₁
              (linked.ids u2.addr ∙ rw apart new2) linked2;
        lists = λ j. linked2.lists j ∙ ground (arith, linked.lists j, bare, bare2);
        routes = λ a.
            route-Linked inv₁ (inc id) l2 u2 nonzero2 (inl (ap source_addr absent₁)) linked2 a
            ∙ ground (
              arith,
              bare,
              bare2,
              route-Linked inv id l u nonzero (inl (ap source_addr absent)) linked a,
            );
      }
    where
      inv₁ : IsLinked st₁
      inv₁ = Linked-IsLinked inv id l u source nonzero absent new linked

      absent₁ : list_at st₁ (inc id) ≡ none
      absent₁ = linked.lists (inc id) ∙ ground (arith, inc-ne id, absent2)

untrue : (z : ℤ) → truthy z ≡ false → z ≡ pos 0
untrue (pos zero) h = refl
untrue (pos (suc n)) h = cc
untrue (negsuc n) h = cc

-- Two ports in a row differ in 16 bits.
next_port : (port : ℤ) → to_u16 (inc port) ≢ to_u16 port
next_port (pos n) e = omega (arith, e)
next_port (negsuc zero) e = ground (arith, e)
next_port (negsuc (suc n)) e = omega (arith, e)

module _ {S : Type 0} (sys : System S) (opened : S → ℤ → Bool) (laws : SystemLaws sys opened) where
  -- So the streams of a pair have different addresses.
  pair_apart :
      (s : S) (id id2 : ℤ) (ip : String) (port : ℤ)
      → sock_addr_cmp (Udp.make sys s id2 ip (inc port)).addr (Udp.make sys s id ip port).addr
        ≡ false
  unfolding Udp.make sock_addr_cmp
  pair_apart s id id2 ip port = ground (
    arith,
    next_port port,
    laws.ntohs-htons (to_u16 port) (to_u16-lt port),
    laws.ntohs-htons (to_u16 (inc port)) (to_u16-lt (inc port)),
  )

  module _ (w : Worker) (inv : IsLinked w.streams) (id : ℤ) (ip : String) (port : ℤ) (s : S)
      (nonzero : (id == pos 0) ≡ false) (nonzero2 : (inc id == pos 0) ≡ false)
      (absent : list_at w.streams id ≡ none) (absent2 : list_at w.streams (inc id) ≡ none) where
    abbrev u : UdpStream
    u = Udp.make sys s id ip port

    abbrev u2 : UdpStream
    u2 = Udp.make sys s (inc id) ip (inc port)

    -- What the calls of `add_socket` return.
    abbrev ret : ℤ × Ports × S
    ret = add_socket sys w.ports port s

    abbrev ret2 : ℤ × Ports × S
    ret2 = add_socket sys ret.1 (inc port) ret.2

    -- Neither address is a source already, and both ports could be opened.
    abbrev pub accepts : Bool
    accepts =
        not (truthy (id_at w.streams u.addr))
        && (not (truthy (id_at w.streams u2.addr))
            && (not (ret.0 == negsuc 0) && not (ret2.0 == negsuc 0)))

    abbrev read : Streams
    read = (get_list_id_by_socket w.streams u.addr).1

    abbrev read2 : Streams
    read2 = (get_list_id_by_socket read u2.addr).1

    got : (get_list_id_by_socket w.streams u.addr).0 ≡ id_at w.streams u.addr
    got = (get_list_id_lem w.streams u.addr).0

    same : SameStreams w.streams read
    same = (get_list_id_lem w.streams u.addr).1

    got2 : (get_list_id_by_socket read u2.addr).0 ≡ id_at w.streams u2.addr
    got2 = (get_list_id_lem read u2.addr).0 ∙ same.ids u2.addr

    same2 : SameStreams w.streams read2
    same2 = SameStreams-trans same (get_list_id_lem read u2.addr).1

    entered :
        {st₁ st' : Streams}
        → truthy (id_at w.streams u.addr) ≡ false
        → truthy (id_at w.streams u2.addr) ≡ false
        → Linked read2 st₁ id (new_list sys id ip port s) u.addr
        → Linked st₁ st' (inc id) (new_list sys (inc id) ip (inc port) s) u2.addr
        → Paired w.streams st' id
            (new_list sys id ip port s)
            (new_list sys (inc id) ip (inc port) s)
            u
            u2
            []
            []
    unfolding new_list StreamList.set_source StreamList.set_list_id StreamList.new
    entered new new2 linked linked2 =
        both-Paired inv id (new_list sys id ip port s) (new_list sys (inc id) ip (inc port) s) u u2
          refl refl refl refl nonzero nonzero2 absent absent2 (untrue (id_at w.streams u.addr) new)
          (untrue (id_at w.streams u2.addr) new2) (pair_apart s id (inc id) ip port)
          (same-Linked same2 linked) linked2

    pub add_source-Paired : Returns (add_source sys w id ip port s) λ r.
        (r.0 ≡ accepts)
        × (if accepts
            then Paired w.streams r.1.streams id
                (new_list sys id ip port s)
                (new_list sys (inc id) ip (inc port) s)
                u
                u2
                []
                []
            else Unchanged w.streams r.1.streams)
    unfolding add_source new_list StreamList.set_source StreamList.set_list_id StreamList.new
    add_source-Paired = elim (Bool-cases (truthy (id_at w.streams u.addr))) [
      | inl known ↦ rw (got, known) (_, refl, (refl, same-Unchanged inv same))
      | inr new ↦ elim (Bool-cases (truthy (id_at w.streams u2.addr))) [
        | inl known2 ↦ rw (got, new, got2, known2) (_, refl, (refl, same-Unchanged inv same2))
        | inr new2 ↦ elim (Bool-cases (ret.0 == negsuc 0)) [
          | inl failed ↦
              rw (got, new, got2, new2, failed) (_, refl, (refl, same-Unchanged inv same2))
          | inr opens ↦ elim (Bool-cases (ret2.0 == negsuc 0)) [
            | inl failed2 ↦
                rw (got, new, got2, new2, opens, failed2)
                  (_, refl, (refl, same-Unchanged inv same2))
            | inr opens2 ↦
                let (st₁, ran, linked) =
                  add_stream_list-Linked read2 id (new_list sys id ip port s) u refl in
                let (st', ran2, linked2) =
                  add_stream_list-Linked st₁ (inc id) (new_list sys (inc id) ip (inc port) s) u2
                    refl in
                rw (got, new, got2, new2, opens, opens2, ran, ran2)
                  (_, refl, (refl, entered new new2 linked linked2))
          ]
        ]
      ]
    ]
