-- ===== src/Udp.antt =====
-- UdpStream.h and UdpStream.cpp: one end of a stream, an identifier and a socket address; and the
-- predicate and the hash of socket addresses from Worker.h.
use str_manager.Prelude.{ℕ, ◌+◌, ◌%◌, ◌≡◌, refl, ap, String, Bool, true, false, ◌&&◌, get_or, arith}
use str_manager.Prelude
use str_manager.Int.{ℤ, pos, to_u16, to_u16-lt}
use str_manager.System.{SockAddr, System, SystemLaws}
use str_manager.Table.Keys.{Key}
use Prim.Native.Nat.{bit_xor}

pub record UdpStream : Type 0 where
  pub id : ℤ
  pub addr : SockAddr

-- `sock_addr_cmp`: address and port; the family is not compared.
unfoldable pub sock_addr_cmp : SockAddr → SockAddr → Bool
sock_addr_cmp a b = Prelude.◌==◌ a.sin_addr b.sin_addr && Prelude.◌==◌ a.sin_port b.sin_port

-- `sock_addr_hasher`, whose sum of unsigned 32-bit values wraps around.
unfoldable pub sock_addr_hasher : SockAddr → ℕ
sock_addr_hasher a = (a.sin_port + bit_xor a.sin_addr 2) % 0x1_0000_0000

pub sock_addr_cmp_refl : (a : SockAddr) → sock_addr_cmp a a ≡ true
unfolding sock_addr_cmp
sock_addr_cmp_refl a = ground arith

pub sock_addr_cmp_symm : (a b : SockAddr) → sock_addr_cmp a b ≡ sock_addr_cmp b a
unfolding sock_addr_cmp
sock_addr_cmp_symm a b = ground arith

pub sock_addr_cmp_trans :
    (a b c : SockAddr)
    → sock_addr_cmp a b ≡ true
    → sock_addr_cmp b c ≡ true
    → sock_addr_cmp a c ≡ true
unfolding sock_addr_cmp
sock_addr_cmp_trans a b c h k = ground arith

-- The key predicate of `forwardingTable`.
instance abbrev pub addr_key : Key SockAddr
addr_key = record {
  same = sock_addr_cmp;
  same_refl = sock_addr_cmp_refl;
  same_symm = sock_addr_cmp_symm;
  same_trans = sock_addr_cmp_trans;
}

-- Addresses that `sock_addr_cmp` takes for the same key have the same hash.
pub hasher-cmp :
    (a b : SockAddr) → sock_addr_cmp a b ≡ true → sock_addr_hasher a ≡ sock_addr_hasher b
unfolding sock_addr_cmp sock_addr_hasher
hasher-cmp a b h = ground arith

module _ {S : Type 0} (sys : System S) where
  -- `UdpStream()`: only the identifier is set.
  unfoldable pub new : S → UdpStream
  new s = record { id = pos 0; addr = sys.stale_addr s }

  unfoldable pub set_id : UdpStream → ℤ → UdpStream
  set_id u id = record u { id = id }

  -- `setAddr(ip, port)`: a text that is no address leaves `sin_addr` as it was.
  unfoldable pub set_addr : UdpStream → String → ℤ → UdpStream
  set_addr u ip port = record u {
    addr = record {
      sin_family = sys.af_inet;
      sin_addr = get_or (sys.inet_aton ip) u.addr.sin_addr;
      sin_port = sys.htons (to_u16 port);
    };
  }

  -- `setAddr(addr)`
  unfoldable pub set_sock_addr : UdpStream → SockAddr → UdpStream
  set_sock_addr u addr = record u { addr = addr }

  -- A new stream with both set, as every caller makes one.
  unfoldable pub make : S → ℤ → String → ℤ → UdpStream
  unfolding new set_id set_addr
  make s id ip port = set_addr (set_id (new s) id) ip port

  -- `ntohs(addr.sin_port)`
  unfoldable pub port_of : UdpStream → ℕ
  port_of u = sys.ntohs u.addr.sin_port

  -- If `ntohs` undoes `htons`, the port of a new stream reads as the low 16 bits of the port given.
  pub port_of-make :
      {opened : S → ℤ → Bool} (laws : SystemLaws sys opened) (s : S) (id : ℤ) (ip : String)
      (port : ℤ)
      → port_of (make s id ip port) ≡ to_u16 port
  unfolding port_of make
  port_of-make laws s id ip port = laws.ntohs-htons (to_u16 port) (to_u16-lt port)
