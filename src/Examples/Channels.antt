-- ===== src/Examples/Channels.antt =====
-- The theorems on the broadcast and the zapping example, each applied to a run on the small machine.
use Prim.Native.String.{String}
use str_manager.Prelude.{
  ℕ, zero, suc, ◌+◌, ◌%◌, ◌<◌, ◌≡◌, refl, some, List, none, true, false, [], ◌∷◌, arith,
  if◌then◌else◌,
}
use str_manager.Prelude
use str_manager.Int.{pos}
use str_manager.Run.{ok, Returns}
use str_manager.System.Toy.{Machine, toy}
use str_manager.Udp
use str_manager.Udp.{UdpStream}
use str_manager.StreamList.{StreamList}
use str_manager.Worker.{Worker}
use str_manager.Message.{forward}
use str_manager.Manager
use str_manager.Manager.Book.{book}
use str_manager.Manager.Book.Forwarders.{AllForward}
use str_manager.Scripts.{continues, Zap, broadcast, zap_start, zap_loop}
use str_manager.Scripts.Broadcasting.{Broadcast, three, broadcast-Broadcast}
use str_manager.Scripts.Zapping.{Tuned, empty_lines, zap_loop-Tuned}
use str_manager.Text.Decimal.{atoi}
use str_manager.Examples.{machine}

abbrev args : List String
args = "a" ∷ "7000" ∷ "bb" ∷ "7001" ∷ "ccc" ∷ "7002" ∷ "dddd" ∷ "9000" ∷ []

abbrev stream : ℕ → ℕ → ℕ → UdpStream
stream id addr port = record {
  id = pos id;
  addr = record { sin_family = 2; sin_addr = addr; sin_port = port };
}

abbrev channel_list : ℕ → UdpStream → List UdpStream → StreamList
channel_list id source ds = record {
  list_id = pos id;
  source = some source;
  destinations = ds;
  time_stamp = 0;
  rates = none;
}

-- The worker, the variables and the machine at the first line.
abbrev channel_worker : Worker
channel_worker = record {
  class = forward;
  worker_id = pos 0;
  worker_type = pos 1;
  working = true;
  launched = true;
  ports = record {
    port_fd = (pos 7000, pos 3) ∷ (pos 7001, pos 4) ∷ (pos 7002, pos 5) ∷ [];
    fd_port = (pos 3, pos 7000) ∷ (pos 4, pos 7001) ∷ (pos 5, pos 7002) ∷ [];
    port_listener = (pos 7000, pos 1) ∷ (pos 7001, pos 1) ∷ (pos 7002, pos 1) ∷ [];
  };
  streams = record {
    management =
        (pos 0, some (channel_list 0 (stream 0 1 0x581b) (stream 3 4 0x2823 ∷ [])))
        ∷ (pos 1, some (channel_list 1 (stream 1 2 0x591b) []))
        ∷ (pos 2, some (channel_list 2 (stream 2 3 0x5a1b) []))
        ∷ [];
    forwarding =
        ((stream 0 1 0x581b).addr, pos 0)
        ∷ ((stream 1 2 0x591b).addr, pos 1)
        ∷ ((stream 2 3 0x5a1b).addr, pos 2)
        ∷ [];
  };
  input_bytes = pos 0;
  output_bytes = pos 0;
}

abbrev on : Zap
on = record {
  manager = record {
    current_worker_id = 1;
    src_id_worker = (pos 0, 0) ∷ (pos 1, 0) ∷ (pos 2, 0) ∷ [];
    worker_id_worker = (pos 0, 0) ∷ [];
    is_listening_messages = true;
    heap = channel_worker ∷ [];
    queue = [];
  };
  actual = 0;
  res = pos 0;
  ip = "dddd";
  port = "9000";
}

abbrev machine_on : Machine
machine_on = record machine { next_fd = 6; bound = 0x5a1b ∷ 0x591b ∷ 0x581b ∷ [] }

on_started : zap_start toy 2 args machine ≡ ok (continues on, machine_on)
unfolding zap_start Manager.add_source Manager.get_worker Manager.get_worker_by_port_type
    Manager.first_worker Manager.new Manager.create_worker
    str_manager.Manager.Dispatch.add_source_of str_manager.Worker.launch str_manager.Worker.new
    str_manager.Worker.add_source str_manager.Streams.get_list_id_by_socket str_manager.Table.index
    str_manager.Ports.add_socket str_manager.Ports.init_socket str_manager.Streams.add_stream_list
    str_manager.StreamList.get_source_sock_addr str_manager.Manager.Dispatch.add_destination_by
    str_manager.Manager.Dispatch.add_destination_of str_manager.Manager.Dispatch.add_source_by
    str_manager.Manager.Dispatch.stats_add_source Manager.add_destination Manager.get_worker_by_type
    Manager.save Manager.write str_manager.Ports.has_port str_manager.Ports.register
    str_manager.Rtcp.add_destination_to str_manager.Rtcp.add_socket str_manager.Rtcp.add_source
    str_manager.Rtcp.new_list str_manager.StreamList.Stats.add_s32 str_manager.StreamList.Stats.new
    str_manager.StreamList.add_destination str_manager.StreamList.exist_destination
    str_manager.StreamList.new str_manager.StreamList.set_list_id str_manager.StreamList.set_source
    str_manager.StreamList.update_time_stamp str_manager.Streams.get_stream_list
    str_manager.Streams.store str_manager.Table.contains str_manager.Table.find?
    str_manager.Table.put atoi Udp.make Udp.new Udp.set_addr Udp.set_id Udp.sock_addr_cmp
    str_manager.Worker.add_destination_to str_manager.Worker.add_source_with
    str_manager.Worker.has_port str_manager.Worker.is_worker_type
on_started = refl

abbrev channels : ℕ → UdpStream
channels zero = stream 0 1 0x581b
channels (suc zero) = stream 1 2 0x591b
channels (suc (suc j)) = stream 2 3 0x5a1b

on_forwards : AllForward on.manager
on_forwards zero w e = ground arith
on_forwards (suc p) w e = cc

on_tuned :
    (j : ℕ)
    → j < 3
    → book on.manager (pos j)
      ≡ some (
        some (channels j),
        if Prelude.◌==◌ j on.actual
            then Udp.make toy machine_on (pos 3) on.ip (atoi on.port) ∷ []
            else [],
      )
unfolding str_manager.Table.find? str_manager.Table.value Udp.make atoi
on_tuned zero h = refl
on_tuned (suc zero) h = refl
on_tuned (suc (suc zero)) h = refl
on_tuned (suc (suc (suc j))) h = absurd (omega arith)

on-Tuned : Tuned toy 2 channels on
on-Tuned = record {
  range = omega arith;
  fine = refl;
  forwards = on_forwards;
  seen = machine_on;
  tuned = on_tuned;
}

abbrev lines : List (String × Machine)
lines = ("", machine_on) ∷ ("next", machine_on) ∷ ("", machine_on) ∷ []

zap_loop-Tuned_example : Returns (zap_loop toy 2 on lines) λ o.
    (z' : Zap) × (o ≡ continues z')
    × Tuned toy 2 channels z'
    × (z'.actual ≡ (0 + empty_lines lines) % 3)
zap_loop-Tuned_example = zap_loop-Tuned toy 2 channels on lines on-Tuned

broadcast-Broadcast_example : Returns (broadcast toy 2 args machine) λ r.
    Broadcast toy 2 "a"
      (atoi "7000")
      (three toy 2 "bb" "7001" "ccc" "7002" "dddd" "9000" r.1)
      machine
      r
broadcast-Broadcast_example =
    broadcast-Broadcast toy 2 "a" "7000" "bb" "7001" "ccc" "7002" "dddd" "9000" machine
