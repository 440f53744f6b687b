-- ===== src/Rtcp/Reopen.antt =====
-- `addSource` and `removeSource` of an RTCP worker, one after the other, and the sockets that they leave.
use str_manager.Prelude.{
  ℕ, suc, ◌<◌, ◌≡◌, refl, ap, sym, subst, ◌∙◌, String, Bool, true, false, none, [], arith,
  if◌then◌else◌,
}
use str_manager.Int.{ℤ, pos, negsuc, ◌==◌, ==_iff, inc, inc-ne}
use str_manager.Run.{ok, Returns, of_Returns}
use str_manager.System.{System, SystemLaws}
use str_manager.Udp
use str_manager.Udp.{UdpStream}
use str_manager.StreamList
use str_manager.StreamList.{StreamList}
use str_manager.Ports.{Ports}
use str_manager.Ports.Sockets.{fd_of, listeners}
use str_manager.Streams.Views.{list_at}
use str_manager.Streams.Routing.{IsLinked}
use str_manager.Worker.{Worker}
use str_manager.Rtcp.{add_socket, new_list, add_source, remove_source}
use str_manager.Rtcp.Pairs.{Paired}
use str_manager.Rtcp.Sources.{Unchanged, add_source-Paired}
use str_manager.Rtcp.Removal.{remove_source-sockets}
use str_manager.Rtcp.Stale.{added, removed, stale_listener}

module _ {S : Type 0} (sys : System S) (n : ℕ) where
  -- What is left at the second port.
  pub record Reopened (p : Ports) (s' : S) : Type 0 where
    pub shut : fd_of p (inc (pos n)) ≡ none
    pub negative : listeners p (inc (pos n)) ≡ negsuc 0
    pub reported : (add_socket sys p (inc (pos n)) s').0 ≡ pos 0
    pub unopened : fd_of (add_socket sys p (inc (pos n)) s').1 (inc (pos n)) ≡ none
    pub idle : (add_socket sys p (inc (pos n)) s').2 ≡ s'

module _ {S : Type 0} (sys : System S) (opened : S → ℤ → Bool) (laws : SystemLaws sys opened)
    (w : Worker) (inv : IsLinked w.streams) (id : ℤ) (ip : String) (n : ℕ) (s : S)
    (nonzero : (id == pos 0) ≡ false) (nonzero2 : (inc id == pos 0) ≡ false)
    (absent : list_at w.streams id ≡ none) (absent2 : list_at w.streams (inc id) ≡ none) where
  port_same : suc n < 0x1_0000 → pos (Udp.port_of sys (Udp.make sys s id ip (pos n))) ≡ pos n
  port_same range = ap pos (Udp.port_of-make sys laws s id ip (pos n) ∙ omega (arith, range))

  port_same2 :
      suc n < 0x1_0000
      → pos (Udp.port_of sys (Udp.make sys s (inc id) ip (inc (pos n)))) ≡ inc (pos n)
  port_same2 range =
      ap pos (Udp.port_of-make sys laws s (inc id) ip (inc (pos n)) ∙ omega (arith, range))

  add_source-sockets :
      {w' : Worker} {s' : S}
      → add_source sys w id ip (pos n) s ≡ ok (true, w', s')
      → (w'.ports ≡ (added sys w.ports (pos n) s).1) × (s' ≡ (added sys w.ports (pos n) s).2)
  unfolding add_source
  add_source-sockets e = (ground arith, ground arith)

  abbrev list : StreamList
  list = new_list sys id ip (pos n) s

  abbrev list2 : StreamList
  list2 = new_list sys (inc id) ip (inc (pos n)) s

  made_pair :
      {w' : Worker} {s' : S}
      → add_source sys w id ip (pos n) s ≡ ok (true, w', s')
      → Paired w.streams w'.streams id list list2
          (Udp.make sys s id ip (pos n))
          (Udp.make sys s (inc id) ip (inc (pos n)))
          []
          []
  made_pair {w'} e =
      let (yes_then, result) =
        of_Returns
          (add_source-Paired sys opened laws w inv id ip (pos n) s nonzero nonzero2 absent absent2)
          e in
      subst
        (λ b.
          if b
          then Paired w.streams w'.streams id list list2 (Udp.make sys s id ip (pos n))
              (Udp.make sys s (inc id) ip (inc (pos n))) [] []
          else Unchanged w.streams w'.streams)
        (sym yes_then) result

  reopened :
      {p : Ports} {t : S}
      → listeners w.ports (pos n) ≡ pos 0
      → (add_socket sys w.ports (pos n) s).0 ≡ pos 1
      → p ≡ (removed sys w.ports (pos n) s).1
      → t ≡ (removed sys w.ports (pos n) s).2
      → Reopened sys n p t
  reopened {p} {t} none_listen success ports state =
      let (closed, shut, negative, reported, unopened, still) =
        stale_listener sys w.ports (pos n) s none_listen success in
      subst (λ u. Reopened sys n p u) (sym state)
        (subst (λ q. Reopened sys n q (removed sys w.ports (pos n) s).2) (sym ports)
          (record {
            shut = shut;
            negative = negative;
            reported = reported;
            unopened = unopened;
            idle = still;
          }))

  -- If an RTCP worker accepts a source for which it opens a new pair of ports of 16 bits, neither
  -- identifier of the pair being 0 or that of a list, and `removeSource` is called next, that returns and
  -- leaves -1 listeners at the second port, which is closed. The next `add_socket` for that port reports a
  -- success and opens nothing.
  pub remove_source-Reopened :
      {w' : Worker} {s' : S}
      → suc n < 0x1_0000
      → listeners w.ports (pos n) ≡ pos 0
      → (add_socket sys w.ports (pos n) s).0 ≡ pos 1
      → add_source sys w id ip (pos n) s ≡ ok (true, w', s')
      → Returns (remove_source sys w' id s') (λ r. Reopened sys n r.0.ports r.1)
  unfolding new_list StreamList.set_source StreamList.set_list_id StreamList.new
  remove_source-Reopened {w'} {s'} range none_listen success e =
      let pair = made_pair e in
      let (ports, state) = add_source-sockets e in
      let (r, ran, (left, after)) =
        remove_source-sockets sys w' pair.linked id list list2 (Udp.make sys s id ip (pos n))
          (Udp.make sys s (inc id) ip (inc (pos n)))
          (pair.lists id ∙ ground (arith, inc-ne id, ==_iff id (inc id), ==_iff id id)) refl
          (pair.lists (inc id) ∙ ground (arith, ==_iff (inc id) (inc id))) refl s' in
      (
        r,
        ran,
        reopened none_listen success (left ∙ rw (ports, state, port_same range, port_same2 range))
            (after ∙ rw (ports, state, port_same range, port_same2 range)),
      )
