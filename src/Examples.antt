-- ===== src/Examples.antt =====
-- Data for the examples: a machine with three descriptors in use, and workers on it with
-- one source.
pub mod Sockets
pub mod Workers
pub mod Managers
pub mod Lists
pub mod Books
pub mod Consoles
pub mod Mail
pub mod Server
pub mod Pairs
pub mod Tables
pub mod Channels
use str_manager.Prelude.{
  arith, ◌∙◌, ℕ, ◌≡◌, refl, String, Bool, true, none, some, [], ◌∷◌, subst, sym, ap,
}
use str_manager.Int.{ℤ, pos, negsuc}
use str_manager.Run.{Run, ok, fault, Returns}
use str_manager.System.{SockAddr}
use str_manager.System.Toy.{Machine, toy, opened, toy_laws}
use str_manager.Message.{forward, stats}
use str_manager.Udp
use str_manager.Udp.{UdpStream}
use str_manager.StreamList
use str_manager.StreamList.{StreamList, Rates}
use str_manager.StreamList.Stats
use str_manager.Streams.Views.{list_at}
use str_manager.Worker.Destinations.{add_destination_to-IsValid}
use str_manager.Worker
use str_manager.Worker.{Worker, add_source_with, add_destination_to}
use str_manager.Worker.Valid.{IsValid, new-IsValid}
use str_manager.Worker.Sources.{add_source_with-IsValid}

-- A packet waits that a host has sent whose address is 4 from its port 7000.
abbrev pub machine : Machine
machine = record {
  next_fd = 3;
  closed = [];
  bound = [];
  inbox = (pos 12, record { sin_family = 2; sin_addr = 4; sin_port = 0x581b }) ∷ [];
  sent = [];
  clock = 100;
}

-- What a run returns, or a default.
abbrev pub value : {A : Type 0} → A → Run A → A
value d (ok a) = a
value d (fault e) = d

-- What is proved of the value of a run that returns.
pub of_value : {A : Type 0} {P : A → Type 0} {r : Run A} (a : A) → Returns r P → r ≡ ok a → P a
of_value {P} a (b, e, p) h = subst P (ap (value a) (sym e ∙ h)) p

abbrev pub start : Worker
start = Worker.new forward (pos 1)

pub start-IsValid : IsValid toy opened start machine
start-IsValid = new-IsValid toy opened forward (pos 1) machine

abbrev pub fresh : StreamList
fresh = StreamList.new toy machine

abbrev pub sender : SockAddr
sender = record { sin_family = 2; sin_addr = 4; sin_port = 0x581b }

abbrev pub source : UdpStream
source = record { id = pos 5; addr = sender }

abbrev pub list : StreamList
list = record {
  list_id = pos 5;
  source = some source;
  destinations = [];
  time_stamp = 0;
  rates = none;
}

-- The worker and the machine after `addSource(5, "host", 7000)`.
abbrev pub worker : Worker
worker = record start {
  ports = record {
    port_fd = (pos 7000, pos 3) ∷ [];
    fd_port = (pos 3, pos 7000) ∷ [];
    port_listener = (pos 7000, pos 1) ∷ [];
  };
  streams = record { management = (pos 5, some list) ∷ []; forwarding = (sender, pos 5) ∷ [] };
}

abbrev pub machine' : Machine
machine' = record machine { next_fd = 4; bound = 0x581b ∷ [] }

pub source_added :
    add_source_with toy start (pos 5) "host" (pos 7000) fresh machine ≡ ok (true, worker, machine')
unfolding add_source_with Worker.new str_manager.Streams.get_list_id_by_socket
    str_manager.Table.index str_manager.Ports.add_socket str_manager.Ports.init_socket
    str_manager.Streams.add_stream_list StreamList.get_source_sock_addr StreamList.set_source
    str_manager.Ports.register StreamList.set_list_id Udp.make Udp.sock_addr_cmp StreamList.new
source_added = refl

pub worker-IsValid : IsValid toy opened worker machine'
unfolding str_manager.Table.value str_manager.Table.find? Worker.new
worker-IsValid =
    (of_value (true, worker, machine')
      (add_source_with-IsValid toy opened toy_laws start-IsValid (pos 5) "host" 7000 fresh refl refl
        (omega arith))
      source_added).0

-- The worker after `addDestination(5, 8, "name", 9000)`.
abbrev pub destination : UdpStream
destination = record {
  id = pos 8;
  addr = record { sin_family = 2; sin_addr = 4; sin_port = 0x2823 };
}

abbrev pub served_list : StreamList
served_list = record list { destinations = destination ∷ [] }

abbrev pub served : Worker
served = record worker {
  streams = record {
    management = (pos 5, some served_list) ∷ [];
    forwarding = (sender, pos 5) ∷ [];
  };
}

pub listed : list_at worker.streams (pos 5) ≡ some list
unfolding str_manager.Table.value str_manager.Table.find?
listed = refl

destination_added :
    add_destination_to toy worker (pos 5) (pos 8) "name" (pos 9000) machine' ≡ ok served
unfolding add_destination_to str_manager.Streams.get_stream_list str_manager.Table.index
    StreamList.add_destination StreamList.exist_destination str_manager.Streams.add_stream_list
    StreamList.get_source_sock_addr Udp.make Udp.sock_addr_cmp
destination_added = refl

pub served-IsValid : IsValid toy opened served machine'
served-IsValid =
    (of_value served
      (add_destination_to-IsValid toy opened worker-IsValid (pos 5) list source listed refl (pos 8)
        "name" (pos 9000))
      destination_added).0

-- A worker of class `StatsWorker` with the same source.
abbrev pub rates : Rates
rates = record { actual_rate = pos 0; limit_rate = pos 0; input_bytes = pos 0 }

abbrev pub measured_list : StreamList
measured_list = record list { time_stamp = 100; rates = some rates }

abbrev pub counter : Worker
counter = record worker {
  class = stats;
  worker_type = pos 2;
  streams = record {
    management = (pos 5, some measured_list) ∷ [];
    forwarding = (sender, pos 5) ∷ [];
  };
}

abbrev pub later : Machine
later = record machine { clock = 101 }

abbrev pub later' : Machine
later' = record machine' { clock = 101 }

counted_source_added :
    add_source_with toy
      (Worker.new stats (pos 1))
      (pos 5)
      "host"
      (pos 7000)
      (Stats.new toy machine).0
      later
    ≡ ok (true, counter, later')
unfolding add_source_with str_manager.Streams.get_list_id_by_socket str_manager.Table.index
    Worker.new str_manager.Ports.add_socket str_manager.Ports.init_socket
    str_manager.Streams.add_stream_list StreamList.get_source_sock_addr StreamList.set_source
    str_manager.Ports.register StreamList.set_list_id Udp.make Udp.sock_addr_cmp Stats.new
    StreamList.new
counted_source_added = refl

pub counter-IsValid : IsValid toy opened counter later'
unfolding str_manager.Table.value str_manager.Table.find? Worker.new
counter-IsValid =
    (of_value (true, counter, later')
      (add_source_with-IsValid toy opened toy_laws (new-IsValid toy opened stats (pos 1) later)
        (pos 5) "host" 7000 (Stats.new toy machine).0 refl refl (omega arith))
      counted_source_added).0
