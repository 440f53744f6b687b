-- ===== src/Worker/Valid.antt =====
-- The well-formedness of a worker: its sockets and its stream lists are, and a port has as many
-- listeners as there are lists whose source has that port.
use str_manager.Prelude.{
  ℕ, ◌≤◌, ◌≡◌, refl, ◌∙◌, Option, none, some, Bool, true, false, arith, inl, inr, Option-cases,
  if◌then◌else◌,
}
use str_manager.Prelude
use str_manager.Int.{ℤ, pos}
use str_manager.System.{System}
use str_manager.Table
use str_manager.Table.Keys.{int_key}
use str_manager.Table.Totals.{total}
use str_manager.Ports.Sockets.{listeners, fd_of}
use str_manager.Ports.Invariant.{IsConsistent, empty-IsConsistent}
use str_manager.Streams.Views.{list_at, Weight, weight, Keyed, weigh-le-weight}
use str_manager.Streams.Routing.{IsLinked, empty-IsLinked}
use str_manager.StreamList.{StreamList}
use str_manager.Udp
use str_manager.Udp.{UdpStream}
use str_manager.Message.{Class}
use str_manager.Worker.{Worker, new}

module _ {S : Type 0} (sys : System S) where
  abbrev pub at_port : ℕ → Option UdpStream → ℕ
  at_port q none = 0
  at_port q (some u) = if Prelude.◌==◌ (Udp.port_of sys u) q then 1 else 0

  abbrev pub listens_at : ℕ → Option StreamList → ℕ
  listens_at q none = 0
  listens_at q (some l) = at_port q l.source

  -- Counts the lists whose source has the port `q`.
  abbrev pub listens : ℕ → Weight
  listens q = record { weigh = listens_at q; null_weight = refl }

  pub record IsValid (opened : S → ℤ → Bool) (w : Worker) (s : S) : Type 0 where
    pub sockets : IsConsistent opened w.ports s
    pub routes : IsLinked w.streams
    pub keyed : Keyed w.streams
    pub shared : (q : ℕ) → listeners w.ports (pos q) ≡ pos (weight (listens q) w.streams)

  pub new-IsValid :
      (opened : S → ℤ → Bool) (class : Class) (id : ℤ) (s : S) → IsValid opened (new class id) s
  unfolding new total Table.value Table.find?
  new-IsValid opened class id s = record {
    sockets = empty-IsConsistent opened s;
    routes = empty-IsLinked;
    keyed = tt;
    shared = λ q. refl;
  }

  module _ {opened : S → ℤ → Bool} {w : Worker} {s : S} (valid : IsValid opened w s) where
    -- The port of a list's source has a listener, and so it is open.
    pub source-open :
        (id : ℤ) (l : StreamList) (u : UdpStream)
        → list_at w.streams id ≡ some l
        → l.source ≡ some u
        → (fd : ℤ) × (fd_of w.ports (pos (Udp.port_of sys u)) ≡ some fd)
    source-open id l u present source = elim (Option-cases (fd_of w.ports (pos q))) [
      | inl closed ↦ absurd (
          ground (
            arith,
            valid.sockets.unlistened (pos q) closed,
            valid.shared q,
            weigh-le-weight (listens q) w.streams id,
            present,
            source,
          ))
      | inr found ↦ found
    ]
      where
        q : ℕ
        q = Udp.port_of sys u
