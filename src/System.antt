-- ===== src/System.antt =====
-- What the library calls and does not implement: the socket calls, the byte order, the clock, and
-- what a field holds that no constructor sets. `S` is the state of the machine around the program.
pub mod Toy
use str_manager.Prelude.{ℕ, ◌<◌, ◌≡◌, String, Bool, true, false, Option, List, if◌then◌else◌}
use str_manager.Int.{ℤ, ◌==◌, is_neg}

-- `struct sockaddr_in`; address and port in network byte order.
pub record SockAddr : Type 0 where
  pub sin_family : ℕ
  pub sin_addr : ℕ
  pub sin_port : ℕ

pub record System (S : Type 0) : Type 0 where
  pub af_inet : ℕ
  pub htons : ℕ → ℕ
  pub ntohs : ℕ → ℕ
  -- `none`: the text is no address, and nothing is written.
  pub inet_aton : String → Option ℕ
  pub inet_ntoa : ℕ → String
  -- A descriptor, or a negative number.
  pub socket : S → ℤ × S
  -- On every interface, at a port in network byte order; negative on failure.
  pub bind : S → ℤ → ℕ → ℤ × S
  pub close : S → ℤ → S
  -- The value returned and the sender's address.
  pub recvfrom : S → ℤ → (ℤ × SockAddr) × S
  -- The descriptor, the number of bytes of the receive buffer, the receiver.
  pub sendto : S → ℤ → ℕ → SockAddr → S
  -- The number of ready descriptors, or a negative number, and the set of the ready ones.
  pub select : S → ℤ → List ℤ → (ℤ × List ℤ) × S
  pub time : S → ℕ × S
  -- The room of an `fd_set`, for descriptors from 0 on; beyond, `FD_SET` is undefined.
  pub fd_setsize : ℕ
  -- What uninitialised memory holds where an object is made.
  pub stale_addr : S → SockAddr
  pub stale_time : S → ℕ

-- What the theorems ask of these calls. `opened s fd` says that the descriptor `fd` is open in `s`.
pub record SystemLaws {S : Type 0} (sys : System S) (opened : S → ℤ → Bool) : Type 0 where
  pub ntohs-htons : (n : ℕ) → n < 0x1_0000 → sys.ntohs (sys.htons n) ≡ n
  pub socket_fresh : (s : S) → is_neg (sys.socket s).0 ≡ false → opened s (sys.socket s).0 ≡ false
  pub opened-socket :
      (s : S) (fd : ℤ)
      → is_neg (sys.socket s).0 ≡ false
      → opened (sys.socket s).1 fd ≡ (if fd == (sys.socket s).0 then true else opened s fd)
  pub opened-socket_error :
      (s : S) (fd : ℤ) → is_neg (sys.socket s).0 ≡ true → opened (sys.socket s).1 fd ≡ opened s fd
  pub opened-bind : (s : S) (b fd : ℤ) (p : ℕ) → opened (sys.bind s b p).1 fd ≡ opened s fd
  pub opened-close :
      (s : S) (c fd : ℤ) → opened (sys.close s c) fd ≡ (if fd == c then false else opened s fd)
  pub opened-recvfrom : (s : S) (f fd : ℤ) → opened (sys.recvfrom s f).1 fd ≡ opened s fd
  pub opened-sendto :
      (s : S) (f fd : ℤ) (n : ℕ) (a : SockAddr) → opened (sys.sendto s f n a) fd ≡ opened s fd
  pub opened-time : (s : S) (fd : ℤ) → opened (sys.time s).1 fd ≡ opened s fd
