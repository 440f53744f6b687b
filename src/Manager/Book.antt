-- ===== src/Manager/Book.antt =====
-- The abstract view of a manager: for each source its address and its destinations, whichever
-- worker has them. This is what the calls of the manager promise to keep.
pub mod Accept
pub mod Chosen
pub mod Sources
pub mod Removal
pub mod Destinations
pub mod Forwarders
pub mod Quiet
pub mod Packets
pub mod Threads
pub mod Executions
pub mod Delivery
pub mod Pooled
pub mod Owners
use str_manager.Prelude.{
  ℕ, ◌≡◌, refl, ap, ◌∙◌, Bool, true, false, Option, none, some, List, [], ◌∷◌, ◌++◌, arith,
  Option-cases, inl, inr, if◌then◌else◌, get_elem?, set,
}
use str_manager.Prelude
use str_manager.Int.{ℤ, ◌==◌}
use str_manager.System.{System}
use str_manager.Table.{find?}
use str_manager.Table.Keys.{int_key}
use str_manager.Udp.{UdpStream}
use str_manager.StreamList.{StreamList}
use str_manager.Streams.Views.{list_at}
use str_manager.Ports.Local.{is_some}
use str_manager.Worker.{Worker}
use str_manager.Manager.{Manager, Ptr, WorkerTable}
use str_manager.Manager.Pool.{get_elem?-set}

-- A source and its destinations.
abbrev pub Entry : Type 0
Entry = Option UdpStream × List UdpStream

abbrev pub Book : Type 0
Book = ℤ → Option Entry

abbrev pub summary : Option StreamList → Option Entry
summary none = none
summary (some l) = some (l.source, l.destinations)

abbrev pub entry_in : Option Worker → ℤ → Option Entry
entry_in none src = none
entry_in (some w) src = summary (list_at w.streams src)

abbrev pub entry_by : List Worker → Option Ptr → ℤ → Option Entry
entry_by heap none src = none
entry_by heap (some p) src = entry_in (get_elem? heap p) src

abbrev pub book : Manager → Book
book m src = entry_by m.heap (find? src m.src_id_worker) src

-- The operations that a manager promises.
abbrev pub enter : ℤ → UdpStream → Book → Book
enter src u b = λ j. if j == src then some (some u, []) else b j

abbrev pub forget : ℤ → Book → Book
forget src b = λ j. if j == src then none else b j

-- A change of the destinations of one source.
abbrev pub redirect : (List UdpStream → List UdpStream) → Option Entry → Option Entry
redirect f none = none
redirect f (some e) = some (e.0, f e.1)

abbrev pub adjust : ℤ → (List UdpStream → List UdpStream) → Book → Book
adjust src f b = λ j. if j == src then redirect f (b j) else b j

pub is_some-summary : (l : Option StreamList) → is_some (summary l) ≡ is_some l
is_some-summary none = refl
is_some-summary (some l) = refl
