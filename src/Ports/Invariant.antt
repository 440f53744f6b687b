-- ===== src/Ports/Invariant.antt =====
-- The well-formedness of a worker's sockets, under opening and closing a port.
use str_manager.Prelude.{
  ◌≡◌, refl, sym, ◌∙◌, inl, inr, Bool, true, false, none, some, arith, Option-cases,
}
use str_manager.Int.{ℤ, pos, ==_iff, truthy, is_positive, is_positive-inc, is_positive-pred}
use str_manager.System.{System, SystemLaws}
use str_manager.Table.Keys.{int_key}
use str_manager.Table.{find?, value}
use str_manager.Ports.{Ports, empty, add_socket, remove_socket}
use str_manager.Ports.Sockets.{fd_of, port_of, listeners}
use str_manager.Ports.Branches.{
  StillOpen, Reused, Failed, Opened, Kept, Closed, add_socket_cases, remove_socket_cases,
}

-- `portFd` and `fdPort` are inverse to one another, every descriptor in them is open, and a port
-- has listeners, one or more, exactly if it has a descriptor.
pub record IsConsistent {S : Type 0} (opened : S → ℤ → Bool) (p : Ports) (s : S) : Type 0 where
  pub port_of_fd : (port fd : ℤ) → fd_of p port ≡ some fd → port_of p fd ≡ some port
  pub fd_of_port : (port fd : ℤ) → port_of p fd ≡ some port → fd_of p port ≡ some fd
  pub live : (port fd : ℤ) → fd_of p port ≡ some fd → opened s fd ≡ true
  pub listened : (port fd : ℤ) → fd_of p port ≡ some fd → is_positive (listeners p port) ≡ true
  pub unlistened : (port : ℤ) → fd_of p port ≡ none → listeners p port ≡ pos 0

module _ {S : Type 0} (sys : System S) (opened : S → ℤ → Bool) (laws : SystemLaws sys opened)
    {p : Ports} {s : S} (inv : IsConsistent opened p s) (port : ℤ) where
  -- A port without listeners has no descriptor.
  pub idle-closed : truthy (listeners p port) ≡ false → fd_of p port ≡ none
  idle-closed h = elim (Option-cases (fd_of p port)) [
    | inl closed ↦ closed
    | inr (fd, e) ↦ ground (arith, inv.listened port fd e)
  ]

  Reused-IsConsistent :
      {r : ℤ × Ports × S} → Reused sys opened laws p s port r → IsConsistent opened r.1 r.2
  Reused-IsConsistent {r} o = record {
    port_of_fd = λ q f e. port_of_same f ∙ inv.port_of_fd q f (sym (fd_of_same q) ∙ e);
    fd_of_port = λ q f e. fd_of_same q ∙ inv.fd_of_port q f (sym (port_of_same f) ∙ e);
    live = λ q f e. rw o.state (inv.live q f (sym (fd_of_same q) ∙ e));
    listened = λ q f e. ground (
      arith,
      fd_of_same q,
      o.counts q,
      inv.listened q f,
      is_positive-inc (listeners p port),
      ==_iff q port,
    );
    unlistened = λ q e.
        ground (arith, fd_of_same q, o.counts q, inv.unlistened q, ==_iff q port, o.listening);
  }
    where
      open o use {fds.{fd_of_same, port_of_same}}

  Failed-IsConsistent :
      {r : ℤ × Ports × S} → Failed sys opened laws p s port r → IsConsistent opened r.1 r.2
  Failed-IsConsistent o = record {
    port_of_fd = λ q f e. port_of_same f ∙ inv.port_of_fd q f (sym (fd_of_same q) ∙ e);
    fd_of_port = λ q f e. fd_of_same q ∙ inv.fd_of_port q f (sym (port_of_same f) ∙ e);
    live = λ q f e. o.still f (inv.live q f (sym (fd_of_same q) ∙ e));
    listened = λ q f e. ground (arith, o.counts q, inv.listened q f (sym (fd_of_same q) ∙ e));
    unlistened = λ q e. o.counts q ∙ inv.unlistened q (sym (fd_of_same q) ∙ e);
  }
    where
      open o use {fds.{fd_of_same, port_of_same}}

  Opened-IsConsistent :
      {r : ℤ × Ports × S} → Opened sys opened laws p s port r → IsConsistent opened r.1 r.2
  Opened-IsConsistent {r} o = record {
    port_of_fd = λ q f e.
        joined.port_of_joined f
        ∙ ground (
          arith,
          joined.fd_of_joined q,
          inv.port_of_fd q f,
          inv.live q f,
          ==_iff q port,
          ==_iff f o.fd,
        );
    fd_of_port = λ q f e.
        joined.fd_of_joined q
        ∙ ground (
          arith,
          joined.port_of_joined f,
          inv.fd_of_port q f,
          idle-closed o.idle,
          ==_iff q port,
          ==_iff f o.fd,
        );
    live =
        λ q f e. ground (arith, joined.fd_of_joined q, inv.live q f, fresh.others f, ==_iff q port);
    listened = λ q f e. ground (arith, joined.fd_of_joined q, joined.counts q, inv.listened q f);
    unlistened = λ q e. ground (arith, joined.fd_of_joined q, joined.counts q, inv.unlistened q);
  }
    where
      open o use {joined, fresh}

  module _ {fd : ℤ} (open_port : fd_of p port ≡ some fd) where
    Kept-IsConsistent :
        {r : Bool × Ports × S} → Kept sys opened laws p s port r → IsConsistent opened r.1 r.2
    Kept-IsConsistent o = record {
      port_of_fd = λ q f e. port_of_same f ∙ inv.port_of_fd q f (sym (fd_of_same q) ∙ e);
      fd_of_port = λ q f e. fd_of_same q ∙ inv.fd_of_port q f (sym (port_of_same f) ∙ e);
      live = λ q f e. rw o.state (inv.live q f (sym (fd_of_same q) ∙ e));
      listened = λ q f e. ground (
        arith,
        fd_of_same q,
        o.counts q,
        inv.listened q f,
        is_positive-pred (listeners p port) (inv.listened port fd open_port) o.shared,
      );
      unlistened = λ q e.
          ground (arith, fd_of_same q, o.counts q, inv.unlistened q, ==_iff q port, open_port);
    }
      where
        open o use {fds.{fd_of_same, port_of_same}}

    Closed-IsConsistent :
        {r : Bool × Ports × S} → Closed sys opened laws p s port fd r → IsConsistent opened r.1 r.2
    Closed-IsConsistent o = record {
      port_of_fd = λ q f e.
          parted.port_of_parted f
          ∙ ground (
            arith,
            parted.fd_of_parted q,
            inv.port_of_fd q f,
            inv.port_of_fd port fd open_port,
            ==_iff q port,
            ==_iff f fd,
          );
      fd_of_port = λ q f e.
          parted.fd_of_parted q
          ∙ ground (
            arith,
            parted.port_of_parted f,
            inv.fd_of_port q f,
            ==_iff q port,
            ==_iff f fd,
            open_port,
          );
      live = λ q f e. rw o.state (
          laws.opened-close s fd f
          ∙ ground (
            arith,
            parted.fd_of_parted q,
            inv.live q f,
            inv.port_of_fd q f,
            inv.port_of_fd port fd open_port,
            ==_iff q port,
            ==_iff f fd,
          ));
      listened = λ q f e. ground (arith, parted.fd_of_parted q, parted.counts q, inv.listened q f);
      unlistened = λ q e. ground (arith, parted.fd_of_parted q, parted.counts q, inv.unlistened q);
    }
      where
        open o use {parted}

  -- From consistent sockets, opening any port leaves consistent sockets, whichever way it ends.
  pub add_socket-IsConsistent : let r = add_socket sys p port s in IsConsistent opened r.1 r.2
  add_socket-IsConsistent = elim (add_socket_cases sys opened laws p port s) [
    | inl o ↦ Reused-IsConsistent o
    | inr (inl o) ↦ Failed-IsConsistent o
    | inr (inr o) ↦ Opened-IsConsistent o
  ]

  -- Closing a port that is open keeps the sockets consistent, whichever way it ends.
  pub remove_socket-IsConsistent :
      {fd : ℤ}
      → fd_of p port ≡ some fd
      → let r = remove_socket sys p port s in IsConsistent opened r.1 r.2
  remove_socket-IsConsistent {fd} e = elim (remove_socket_cases sys opened laws p port fd s e) [
    | inl o ↦ Kept-IsConsistent e o
    | inr o ↦ Closed-IsConsistent e o
  ]

-- No port is open at first.
pub empty-IsConsistent : {S : Type 0} (opened : S → ℤ → Bool) (s : S) → IsConsistent opened empty s
unfolding find? value
empty-IsConsistent opened s = record {
  port_of_fd = λ q f e. cc;
  fd_of_port = λ q f e. cc;
  live = λ q f e. cc;
  listened = λ q f e. cc;
  unlistened = λ q e. refl;
}

-- Descriptors that stay open keep the sockets consistent.
pub still-IsConsistent :
    {S : Type 0} {opened : S → ℤ → Bool} {p : Ports} {s s' : S}
    → IsConsistent opened p s
    → StillOpen opened s s'
    → IsConsistent opened p s'
still-IsConsistent inv still = record {
  port_of_fd = inv.port_of_fd;
  fd_of_port = inv.fd_of_port;
  live = λ q f e. still f (inv.live q f e);
  listened = inv.listened;
  unlistened = inv.unlistened;
}
