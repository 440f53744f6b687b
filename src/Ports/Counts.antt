-- ===== src/Ports/Counts.antt =====
-- The sockets as counters: what `add_socket` and `remove_socket` do to the listeners of a port, one
-- after the other and against `hasPort`.
use str_manager.Prelude.{ap, ◌≡◌, ◌∙◌, inl, inr, Bool, true, false, none, some, arith, Option-cases}
use str_manager.Int.{ℤ, pos, negsuc, ◌==◌, ==_iff, truthy, inc, pred, pred-inc, is_positive}
use str_manager.System.{System, SystemLaws}
use str_manager.Table.Keys.{int_key}
use str_manager.Table.Laws.{contains-find?}
use str_manager.Ports.{Ports, has_port, add_socket, remove_socket}
use str_manager.Ports.Sockets.{Counts, fd_of, port_of, listeners, SameListeners}
use str_manager.Ports.Branches.{Reused, Opened, add_socket_cases, remove_socket_cases}
use str_manager.Ports.Invariant.{IsConsistent, idle-closed}

-- A reader finds the same in all three tables.
pub record SamePorts (p p' : Ports) : Type 0 where
  pub fd_of_same : (q : ℤ) → fd_of p' q ≡ fd_of p q
  pub port_of_same : (f : ℤ) → port_of p' f ≡ port_of p f
  pub listeners_same : SameListeners p p'

-- If the sockets are consistent, `hasPort` says whether the port has a positive number of listeners.
pub has_port-listeners :
    {S : Type 0} {opened : S → ℤ → Bool} {p : Ports} {s : S} (inv : IsConsistent opened p s)
    (port : ℤ)
    → has_port p port ≡ is_positive (listeners p port)
unfolding has_port
has_port-listeners {p} inv port =
    contains-find? port p.port_fd ∙ elim (Option-cases (fd_of p port)) [
      | inl e ↦ rw (e, inv.unlistened port e)
      | inr (fd, e) ↦ rw (e, inv.listened port fd e)
    ]

module _ {S : Type 0} (sys : System S) (opened : S → ℤ → Bool) (laws : SystemLaws sys opened)
    {p : Ports} {s : S} (inv : IsConsistent opened p s) (port : ℤ) where
  Undone : ℤ × Ports × S → Type 0
  Undone r =
      let r' = remove_socket sys r.1 port r.2 in
      (r'.0 ≡ (r.0 == pos 1)) × SamePorts p r'.1 × ((f : ℤ) → opened r'.2 f ≡ opened s f)

  undo-Reused :
      {r : ℤ × Ports × S} (fd : ℤ)
      → fd_of p port ≡ some fd
      → Reused sys opened laws p s port r
      → Undone r
  unfolding Undone
  undo-Reused {r} fd e o =
      elim (remove_socket_cases sys opened laws r.1 port fd r.2 (o.fds.fd_of_same port ∙ e)) [
        | inl k ↦ (
          rw (k.code, o.code),
          record {
            fd_of_same = λ q. k.fds.fd_of_same q ∙ o.fds.fd_of_same q;
            port_of_same = λ f. k.fds.port_of_same f ∙ o.fds.port_of_same f;
            listeners_same = λ q.
                k.counts q
                ∙ ground (
                  arith,
                  o.counts q,
                  o.counts port,
                  pred-inc (listeners p port),
                  ==_iff q port,
                  ==_iff port port,
                );
          },
          λ f. ap (λ x. opened x f) (k.state ∙ o.state),
        )
        | inr c ↦ absurd (
            ground (
              arith,
              c.last,
              o.counts port,
              pred-inc (listeners p port),
              ==_iff port port,
              o.listening,
            ))
      ]

  -- A descriptor that is not open belongs to no port.
  unused : (fd : ℤ) → opened s fd ≡ false → port_of p fd ≡ none
  unused fd h = elim (Option-cases (port_of p fd)) [
    | inl e ↦ e
    | inr (q, e) ↦ ground (arith, inv.live q fd (inv.fd_of_port q fd e))
  ]

  undo-Opened : {r : ℤ × Ports × S} → Opened sys opened laws p s port r → Undone r
  unfolding Undone
  undo-Opened {r} o =
      elim (remove_socket_cases sys opened laws r.1 port o.fd r.2
        (o.joined.fd_of_joined port ∙ ground (arith, ==_iff port port))) [
          | inl k ↦ absurd (ground (arith, k.shared, o.joined.counts port, ==_iff port port))
          | inr c ↦ (
            rw (c.code, o.code),
            record {
              fd_of_same = λ q.
                  c.parted.fd_of_parted q
                  ∙ ground (
                    arith,
                    o.joined.fd_of_joined q,
                    idle-closed sys opened laws inv port o.idle,
                    ==_iff q port,
                  );
              port_of_same = λ f.
                  c.parted.port_of_parted f
                  ∙ ground
                      (arith, o.joined.port_of_joined f, unused o.fd o.fresh.unused, ==_iff f o.fd);
              listeners_same = λ q.
                  c.parted.counts q
                  ∙ ground (
                    arith,
                    o.joined.counts q,
                    inv.unlistened port (idle-closed sys opened laws inv port o.idle),
                    ==_iff q port,
                  );
            },
            λ f.
                ap (λ x. opened x f) c.state
                ∙ laws.opened-close r.2 o.fd f
                ∙ ground (arith, o.fresh.exact f, o.fresh.unused, ==_iff f o.fd),
          )
        ]

  listening-open : truthy (listeners p port) ≡ true → (fd : ℤ) × (fd_of p port ≡ some fd)
  listening-open h = elim (Option-cases (fd_of p port)) [
    | inl e ↦ absurd (ground (arith, inv.unlistened port e))
    | inr found ↦ found
  ]

  -- From consistent sockets, closing a port right after it was opened with success undoes the opening:
  -- `remove_socket` returns true exactly if the port had been opened afresh, every table reads as before,
  -- and the open descriptors of the machine are those from before.
  pub remove-add_socket :
      ((add_socket sys p port s).0 == negsuc 0) ≡ false
      → let r = add_socket sys p port s in
        let r' = remove_socket sys r.1 port r.2 in
        (r'.0 ≡ (r.0 == pos 1)) × SamePorts p r'.1 × ((f : ℤ) → opened r'.2 f ≡ opened s f)
  unfolding Undone
  remove-add_socket success = elim (add_socket_cases sys opened laws p port s) [
    | inl o ↦ let (fd, e) = listening-open o.listening in undo-Reused fd e o
    | inr (inl o) ↦ absurd (ground (arith, o.code))
    | inr (inr o) ↦ undo-Opened o
  ]

  -- A success adds a listener, and a failure changes no table.
  pub add_socket-Counts :
      let r = add_socket sys p port s in
      (r.0 == negsuc 0) ≡ false → Counts p r.1 port (inc (listeners p port))
  add_socket-Counts success q = elim (add_socket_cases sys opened laws p port s) [
    | inl o ↦ o.counts q
    | inr (inl o) ↦ absurd (ground (arith, o.code))
    | inr (inr o) ↦
        o.joined.counts q
        ∙ ground (arith, inv.unlistened port (idle-closed sys opened laws inv port o.idle))
  ]

  pub add_socket-failed :
      let r = add_socket sys p port s in (r.0 == negsuc 0) ≡ true → SameListeners p r.1
  add_socket-failed failure q = elim (add_socket_cases sys opened laws p port s) [
    | inl o ↦ absurd (ground (arith, o.code))
    | inr (inl o) ↦ o.counts q
    | inr (inr o) ↦ absurd (ground (arith, o.code))
  ]

  -- Closing takes a listener away.
  pub remove_socket-Counts :
      {fd : ℤ}
      → fd_of p port ≡ some fd
      → Counts p (remove_socket sys p port s).1 port (pred (listeners p port))
  remove_socket-Counts {fd} e q = elim (remove_socket_cases sys opened laws p port fd s e) [
    | inl k ↦ k.counts q
    | inr c ↦ c.parted.counts q ∙ ground (arith, c.last, ==_iff (pred (listeners p port)) (pos 0))
  ]
