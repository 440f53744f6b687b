-- ===== src/Ports/Sockets.antt =====
-- What a reader of the three tables sees after each method, branch by branch.
use str_manager.Prelude.{◌≡◌, ap, ◌∙◌, Option, none, some, arith, if◌then◌else◌}
use str_manager.Int.{ℤ, pos, ◌==◌, ==_iff}
use str_manager.Table
use str_manager.Table.Keys.{int_key}
use str_manager.Table.Laws.{find?-put, find?-erase, find?-index, index-value, value_lem}
use str_manager.Ports.{Ports, register, unregister}

-- The descriptor of a port, the port of a descriptor, and the number of listeners of a port.
abbrev pub fd_of : Ports → ℤ → Option ℤ
fd_of p port = Table.find? port p.port_fd

abbrev pub port_of : Ports → ℤ → Option ℤ
port_of p fd = Table.find? fd p.fd_port

abbrev pub listeners : Ports → ℤ → ℤ
listeners p port = Table.value (pos 0) port p.port_listener

-- No table but the listeners' has changed for a reader.
pub record SameFds (p p' : Ports) : Type 0 where
  pub fd_of_same : (q : ℤ) → fd_of p' q ≡ fd_of p q
  pub port_of_same : (f : ℤ) → port_of p' f ≡ port_of p f

abbrev pub SameListeners : Ports → Ports → Type 0
SameListeners p p' = (q : ℤ) → listeners p' q ≡ listeners p q

-- The listeners of `port` alone have changed, to `n`.
abbrev pub Counts : Ports → Ports → ℤ → ℤ → Type 0
Counts p p' port n = (q : ℤ) → listeners p' q ≡ (if q == port then n else listeners p q)

-- The port and the descriptor have been joined, with one listener.
pub record Joined (p p' : Ports) (port fd : ℤ) : Type 0 where
  pub fd_of_joined : (q : ℤ) → fd_of p' q ≡ (if q == port then some fd else fd_of p q)
  pub port_of_joined : (f : ℤ) → port_of p' f ≡ (if f == fd then some port else port_of p f)
  pub counts : Counts p p' port (pos 1)

-- The port and the descriptor have been parted, and the port has no listener.
pub record Parted (p p' : Ports) (port fd : ℤ) : Type 0 where
  pub fd_of_parted : (q : ℤ) → fd_of p' q ≡ (if q == port then none else fd_of p q)
  pub port_of_parted : (f : ℤ) → port_of p' f ≡ (if f == fd then none else port_of p f)
  pub counts : Counts p p' port (pos 0)

pub value-put :
    (p : Ports) (k q n : ℤ)
    → Table.value (pos 0) q (Table.put k n p.port_listener) ≡ (if q == k then n else listeners p q)
value-put p k q n =
    rw (value_lem (pos 0) q (Table.put k n p.port_listener), find?-put k q n p.port_listener)
      (ground (arith, value_lem (pos 0) q p.port_listener))

pub value-index :
    (p : Ports) (k q : ℤ)
    → Table.value (pos 0) q (Table.index (pos 0) k p.port_listener).1 ≡ listeners p q
value-index p k q =
    rw
      (
        value_lem (pos 0) q (Table.index (pos 0) k p.port_listener).1,
        find?-index (pos 0) k q p.port_listener,
      )
      (ground (arith, value_lem (pos 0) q p.port_listener, ==_iff q k))

pub value-erase :
    (p : Ports) (k q : ℤ)
    → Table.value (pos 0) q (Table.erase k p.port_listener)
      ≡ (if q == k then pos 0 else listeners p q)
value-erase p k q =
    rw (value_lem (pos 0) q (Table.erase k p.port_listener), find?-erase k q p.port_listener)
      (ground (arith, value_lem (pos 0) q p.port_listener))

-- The table of listeners after a read through `operator[]`.
abbrev pub touched : Ports → ℤ → Ports
touched p port = record p { port_listener = (Table.index (pos 0) port p.port_listener).1 }

abbrev pub counted : Ports → ℤ → ℤ → Ports
counted p port n = record p { port_listener = Table.put port n (touched p port).port_listener }

pub counted-Counts : (p : Ports) (port n : ℤ) → Counts p (counted p port n) port n
counted-Counts p port n q =
    value-put (touched p port) port q n
    ∙ ap (λ m. if q == port then n else m) (value-index p port q)

pub register-Joined : (p : Ports) (port fd : ℤ) → Joined p (register p port fd) port fd
unfolding register
register-Joined p port fd = record {
  fd_of_joined = λ q. find?-put port q fd p.port_fd;
  port_of_joined = λ f. find?-put fd f port p.fd_port;
  counts = λ q. value-put p port q (pos 1);
}

pub unregister-Parted :
    (p : Ports) (port fd : ℤ)
    → fd_of p port ≡ some fd
    → ((unregister p port).0 ≡ fd) × Parted p (unregister p port).1 port fd
unfolding unregister
unregister-Parted p port fd e = (
  read,
  record {
    fd_of_parted = λ q. find?-erase port q (Table.index (pos 0) port p.port_fd).1 ∙ erased q;
    port_of_parted = λ f.
        find?-erase (Table.index (pos 0) port p.port_fd).0 f p.fd_port
        ∙ ap (λ d. if f == d then none else port_of p f) read;
    counts = value-erase p port;
  },
)
  where
    read : (Table.index (pos 0) port p.port_fd).0 ≡ fd
    read = index-value (pos 0) port p.port_fd ∙ rw (value_lem (pos 0) port p.port_fd, e)

    erased :
        (q : ℤ)
        → (if q == port then none else Table.find? q (Table.index (pos 0) port p.port_fd).1)
          ≡ (if q == port then none else fd_of p q)
    erased q = ground (arith, find?-index (pos 0) port q p.port_fd)

-- The same after the counter has been read or written.
pub register-touched :
    (p : Ports) (port fd : ℤ) → Joined p (register (touched p port) port fd) port fd
register-touched p port fd = record {
  fd_of_joined = joined.fd_of_joined;
  port_of_joined = joined.port_of_joined;
  counts = λ q. joined.counts q ∙ ap (λ m. if q == port then pos 1 else m) (value-index p port q);
}
  where
    joined : Joined (touched p port) (register (touched p port) port fd) port fd
    joined = register-Joined (touched p port) port fd

pub unregister-counted :
    (p : Ports) (port n fd : ℤ)
    → fd_of p port ≡ some fd
    → ((unregister (counted p port n) port).0 ≡ fd)
      × Parted p (unregister (counted p port n) port).1 port fd
unregister-counted p port n fd e = (
  both.0,
  record {
    fd_of_parted = both.1.fd_of_parted;
    port_of_parted = both.1.port_of_parted;
    counts = λ q. both.1.counts q ∙ ground (arith, counted-Counts p port n q);
  },
)
  where
    both :
        ((unregister (counted p port n) port).0 ≡ fd)
        × Parted (counted p port n) (unregister (counted p port n) port).1 port fd
    both = unregister-Parted (counted p port n) port fd e
