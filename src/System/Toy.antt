-- ===== src/System/Toy.antt =====
-- A small machine that obeys the laws, for tests and examples: descriptors are numbered upwards and
-- never reused, a port can be bound once, and every datagram sent is recorded, the last one first.
use str_manager.Prelude.{
  ℕ, suc, ◌+◌, ◌*◌, ◌/◌, ◌%◌, ◌<◌, ◌≡◌, refl, String, Bool, true, false, none, some, List, [], ◌∷◌,
  arith, ltb, if◌then◌else◌, length,
}
use str_manager.Prelude
use str_manager.Int.{ℤ, pos, negsuc, ◌==◌, is_neg}
use str_manager.Int
use str_manager.System.{SockAddr, System, SystemLaws}
use Prim.Native.String.{len}

pub record Packet : Type 0 where
  pub fd : ℤ
  pub bytes : ℕ
  pub to : SockAddr

pub record Machine : Type 0 where
  pub next_fd : ℕ
  pub closed : List ℤ
  pub bound : List ℕ
  pub inbox : List (ℤ × SockAddr)
  pub sent : List Packet
  pub clock : ℕ

abbrev pub listed : ℤ → List ℤ → Bool
listed x [] = false
listed x (y ∷ ys) = if x == y then true else listed x ys

abbrev pub bound_at : ℕ → List ℕ → Bool
bound_at x [] = false
bound_at x (y ∷ ys) = if Prelude.◌==◌ x y then true else bound_at x ys

abbrev pub below : ℤ → ℕ → Bool
below (pos a) n = ltb a n
below (negsuc a) n = false

abbrev pub opened : Machine → ℤ → Bool
opened m fd = if listed fd m.closed then false else below fd m.next_fd

abbrev pub swap : ℕ → ℕ
swap n = if ltb n 0x1_0000 then n % 256 * 256 + n / 256 else n

-- A host name of `n` letters stands for the address `n`, and an empty one for none.
abbrev pub host : String → ℕ
host name = len name

abbrev receive : Machine → List (ℤ × SockAddr) → (ℤ × SockAddr) × Machine
receive m [] = ((negsuc 0, record { sin_family = 0; sin_addr = 0; sin_port = 0 }), m)
receive m (p ∷ ps) = (p, record m { inbox = ps })

-- `listed fd m.closed` guards the number of a new descriptor, so that it is never an old one.
abbrev open_next : Machine → ℤ × Machine
open_next m =
    if listed (pos m.next_fd) m.closed
    then (negsuc 0, m)
    else (pos m.next_fd, record m { next_fd = suc m.next_fd })

abbrev pub toy : System Machine
toy = record {
  fd_setsize = 1024;
  af_inet = 2;
  htons = swap;
  ntohs = swap;
  inet_aton = λ name. if Prelude.◌==◌ (host name) 0 then none else some (host name);
  inet_ntoa = λ _. "host";
  socket = open_next;
  bind = λ m fd p.
      if bound_at p m.bound then (negsuc 0, m) else (pos 0, record m { bound = p ∷ m.bound });
  close = λ m fd. record m { closed = fd ∷ m.closed };
  recvfrom = λ m fd. receive m m.inbox;
  sendto = λ m fd n a. record m { sent = record { fd = fd; bytes = n; to = a } ∷ m.sent };
  select = λ m nfds fds. ((pos (length m.inbox), fds), m);
  time = λ m. (m.clock, record m { clock = m.clock + 1 });
  stale_addr = λ _. record { sin_family = 7; sin_addr = 7; sin_port = 7 };
  stale_time = λ _. 0;
}

swap-swap : (n : ℕ) → n < 0x1_0000 → swap (swap n) ≡ n
swap-swap n h = ground arith

fresh : (m : Machine) → is_neg (open_next m).0 ≡ false → opened m (open_next m).0 ≡ false
fresh m h = ground arith

opened-open_next :
    (m : Machine) (fd : ℤ)
    → is_neg (open_next m).0 ≡ false
    → opened (open_next m).1 fd ≡ (if fd == (open_next m).0 then true else opened m fd)
opened-open_next m (pos n) h = ground (arith, Int.==_iff (pos n) (pos m.next_fd))
opened-open_next m (negsuc n) h = ground arith

opened-open_next_error :
    (m : Machine) (fd : ℤ) → is_neg (open_next m).0 ≡ true → opened (open_next m).1 fd ≡ opened m fd
opened-open_next_error m fd h = ground arith

opened-bind : (m : Machine) (b fd : ℤ) (p : ℕ) → opened (toy.bind m b p).1 fd ≡ opened m fd
opened-bind m b fd p = ground arith

opened-close :
    (m : Machine) (c fd : ℤ) → opened (toy.close m c) fd ≡ (if fd == c then false else opened m fd)
opened-close m c fd = ground arith

opened-recvfrom : (m : Machine) (f fd : ℤ) → opened (toy.recvfrom m f).1 fd ≡ opened m fd
opened-recvfrom m f fd = ground arith

opened-sendto :
    (m : Machine) (f fd : ℤ) (n : ℕ) (a : SockAddr) → opened (toy.sendto m f n a) fd ≡ opened m fd
opened-sendto m f fd n a = refl

opened-time : (m : Machine) (fd : ℤ) → opened (toy.time m).1 fd ≡ opened m fd
opened-time m fd = refl

pub toy_laws : SystemLaws toy opened
toy_laws = record {
  ntohs-htons = swap-swap;
  socket_fresh = fresh;
  opened-socket = opened-open_next;
  opened-socket_error = opened-open_next_error;
  opened-bind = opened-bind;
  opened-close = opened-close;
  opened-recvfrom = opened-recvfrom;
  opened-sendto = opened-sendto;
  opened-time = opened-time;
}
