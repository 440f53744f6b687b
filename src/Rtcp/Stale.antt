-- ===== src/Rtcp/Stale.antt =====
-- The listener counts of an RtcpWorker, after each branch of `add_socket` and `remove_socket`.
use str_manager.Prelude.{◌≡◌, refl, ap, ◌∙◌, Bool, true, false, none, arith, if◌then◌else◌}
use str_manager.Int.{ℤ, pos, negsuc, ◌==◌, ==_iff, truthy, inc, pred, inc-ne}
use str_manager.System.{System}
use str_manager.Table
use str_manager.Table.Keys.{int_key}
use str_manager.Table.Laws.{index-value, find?-erase}
use str_manager.Ports.{Ports, register, init_socket}
use str_manager.Ports.Sockets.{
  fd_of, listeners, touched, counted, counted-Counts, register-Joined, register-touched,
  value-erase,
}
use str_manager.Rtcp.{add_socket, remove_socket}

module _ {S : Type 0} (sys : System S) (p : Ports) (port : ℤ) (s : S) where
  read : (Table.index (pos 0) port p.port_listener).0 ≡ listeners p port
  read = index-value (pos 0) port p.port_listener

  -- A port that has listeners, or a negative number of them, is taken to be open.
  pub add_socket-reused :
      truthy (listeners p port) ≡ true
      → add_socket sys p port s ≡ (pos 0, counted p port (inc (listeners p port)), s)
  unfolding add_socket
  add_socket-reused used = rw (read, used)

  -- The pair of descriptors that a success registers.
  abbrev pub fds : ℤ × ℤ
  fds = let (fd, s₁) = init_socket sys port s in (fd, (init_socket sys (inc port) s₁).0)

  registered :
      truthy (listeners p port) ≡ false
      → (add_socket sys p port s).0 ≡ pos 1
      → (add_socket sys p port s).1
        ≡ register (register (touched p port) port fds.0) (inc port) fds.1
  unfolding add_socket
  registered idle success = ground (arith, read)

  -- After a success with a new pair both ports have one listener.
  pub add_socket-opened :
      truthy (listeners p port) ≡ false
      → (add_socket sys p port s).0 ≡ pos 1
      → (q : ℤ)
      → listeners (add_socket sys p port s).1 q
        ≡ (if q == inc port then pos 1 else if q == port then pos 1 else listeners p q)
  add_socket-opened idle success q =
      ap (λ r. listeners r q) (registered idle success)
      ∙ (register-Joined (register (touched p port) port fds.0) (inc port) fds.1).counts q
      ∙ ap (λ n. if q == inc port then pos 1 else n) ((register-touched p port fds.0).counts q)

  pub remove_socket-kept :
      (pred (listeners p port) == pos 0) ≡ false
      → remove_socket sys p port s ≡ (false, counted p port (pred (listeners p port)), s)
  unfolding remove_socket
  remove_socket-kept more = rw (read, more)

  -- With the last listener of a port both ports of its pair are closed, and have no listener.
  pub remove_socket-last :
      (pred (listeners p port) == pos 0) ≡ true
      → let r = remove_socket sys p port s in
        (r.0 ≡ true)
        × ((q : ℤ)
            → listeners r.1 q
              ≡ (if q == inc port then pos 0 else if q == port then pos 0 else listeners p q))
        × (fd_of r.1 (inc port) ≡ none)
  unfolding remove_socket
  remove_socket-last last =
      rw (read, last)
        (
          refl,
          cleared,
          find?-erase (inc port) (inc port) _ ∙ ground (arith, ==_iff (inc port) (inc port)),
        )
    where
      seen : Ports
      seen = counted p port (pred (listeners p port))

      cleared :
          (q : ℤ)
          → Table.value (pos 0) q (Table.erase (inc port) (Table.erase port seen.port_listener))
            ≡ (if q == inc port then pos 0 else if q == port then pos 0 else listeners p q)
      cleared q =
          value-erase (record seen { port_listener = Table.erase port seen.port_listener })
            (inc port) q
          ∙ ground
              (arith, value-erase seen port q, counted-Counts p port (pred (listeners p port)) q)

module _ {S : Type 0} (sys : System S) (p : Ports) (port : ℤ) (s : S) where
  -- The calls of `addSource` with a new pair of ports, and those of `removeSource` after it.
  abbrev pub added : ℤ × Ports × S
  added = let r = add_socket sys p port s in add_socket sys r.1 (inc port) r.2

  abbrev pub first_removed : Bool × Ports × S
  first_removed = remove_socket sys added.1 port added.2

  abbrev pub removed : Bool × Ports × S
  removed = remove_socket sys first_removed.1 (inc port) first_removed.2

  module _ (idle : listeners p port ≡ pos 0) (success : (add_socket sys p port s).0 ≡ pos 1) where
    abbrev opened : ℤ × Ports × S
    opened = add_socket sys p port s

    counts :
        (q : ℤ)
        → listeners opened.1 q
          ≡ (if q == inc port then pos 1 else if q == port then pos 1 else listeners p q)
    counts = add_socket-opened sys p port s (rw idle) success

    added_lem : added ≡ (pos 0, counted opened.1 (inc port) (pos 2), opened.2)
    added_lem =
        let one : listeners opened.1 (inc port) ≡ pos 1 =
          counts (inc port) ∙ ground (arith, ==_iff (inc port) (inc port)) in
        add_socket-reused sys opened.1 (inc port) opened.2 (rw one)
        ∙ ap (λ n. (pos 0, counted opened.1 (inc port) (inc n), opened.2)) one

    port-one : listeners added.1 port ≡ pos 1
    port-one =
        ap (λ r. listeners r.1 port) added_lem
        ∙ counted-Counts opened.1 (inc port) (pos 2) port
        ∙ ground (
          arith,
          counts port,
          inc-ne port,
          ==_iff port (inc port),
          ==_iff (inc port) port,
          ==_iff port port,
        )

    -- If a port has no listener and `addSource` of an RTCP worker opens it with the next one, the two
    -- calls of `remove_socket` that `removeSource` makes close the pair and leave -1 listeners at the
    -- second port. The next `add_socket` for that port reports a success and opens nothing.
    pub stale_listener :
        let r = add_socket sys removed.1 (inc port) removed.2 in
        (first_removed.0 ≡ true)
        × (fd_of removed.1 (inc port) ≡ none)
        × (listeners removed.1 (inc port) ≡ negsuc 0)
        × (r.0 ≡ pos 0)
        × (fd_of r.1 (inc port) ≡ none)
        × (r.2 ≡ removed.2)
    stale_listener =
        let (closed, left, gone) = remove_socket-last sys added.1 port added.2 (rw port-one) in
        let none_left : listeners first_removed.1 (inc port) ≡ pos 0 =
          left (inc port) ∙ ground (arith, ==_iff (inc port) (inc port)) in
        let kept : removed
            ≡ (false, counted first_removed.1 (inc port) (negsuc 0), first_removed.2) =
          remove_socket-kept sys first_removed.1 (inc port) first_removed.2 (rw none_left)
          ∙ ap (λ n. (false, counted first_removed.1 (inc port) (pred n), first_removed.2))
              none_left in
        let shut : fd_of removed.1 (inc port) ≡ none = ap (λ r. fd_of r.1 (inc port)) kept ∙ gone in
        let negative : listeners removed.1 (inc port) ≡ negsuc 0 =
          ap (λ r. listeners r.1 (inc port)) kept
          ∙ counted-Counts first_removed.1 (inc port) (negsuc 0) (inc port)
          ∙ ground (arith, ==_iff (inc port) (inc port)) in
        let again = add_socket-reused sys removed.1 (inc port) removed.2 (rw negative) in
        (
          closed,
          shut,
          negative,
          ap (λ r. r.0) again,
          ap (λ r. fd_of r.1 (inc port)) again ∙ shut,
          ap (λ r. r.2) again,
        )
