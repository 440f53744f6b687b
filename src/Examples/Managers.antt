-- ===== src/Examples/Managers.antt =====
-- The theorems on the manager, each applied to one with a worker that has a source.
use str_manager.Prelude.{
  ◌⊎◌, some, List, ◌++◌, get_elem?, ◌≡◌, ◌≤◌, refl, true, false, [], ◌∷◌, length,
}
use str_manager.Int.{pos}
use str_manager.Run.{ok}
use str_manager.System.Toy.{toy, Machine}
use str_manager.Worker.{Worker}
use str_manager.Message.{Message, no_job}
use str_manager.Manager
use str_manager.Manager.Dispatch.{remove_source_of}
use str_manager.Manager.{Manager, add_source, remove_source, get_worker}
use str_manager.Table.{find?}
use str_manager.Table.Keys.{int_key}
use str_manager.Manager.Pool.{IsPool}
use str_manager.Manager.Reach.{Reach, created, stepped, source_added, Reach-IsPool, pool_size}
use str_manager.Manager.Lookup.{remove_source-Suited}
use str_manager.Examples.{machine, machine', worker}

abbrev pub owner : Worker
owner = record worker { worker_id = pos 0; launched = true }

-- The manager after `addSource(1, 5, "host", 7000)`, with two processors.
abbrev pub managed : Manager
managed = record {
  current_worker_id = 1;
  src_id_worker = (pos 5, 0) ∷ [];
  worker_id_worker = (pos 0, 0) ∷ [];
  is_listening_messages = true;
  heap = owner ∷ [];
  queue = [];
}

abbrev pub idle : Manager
idle = record managed {
  src_id_worker = [];
  heap =
      record owner {
        working = false;
        ports = record { port_fd = []; fd_port = []; port_listener = [] };
        streams = record { management = []; forwarding = [] };
      }
      ∷ [];
  queue = no_job (pos 0) ∷ [];
}

abbrev pub shut : Machine
shut = record machine' { closed = pos 3 ∷ [] }

pub managed_lem :
    add_source toy 2 Manager.new (pos 1) (pos 5) "host" (pos 7000) machine
    ≡ ok (pos 0, managed, machine')
unfolding add_source Manager.get_worker Manager.get_worker_by_port_type Manager.first_worker
    Manager.new Manager.create_worker str_manager.Manager.Dispatch.add_source_of
    str_manager.Worker.launch str_manager.Worker.new str_manager.Worker.add_source
    str_manager.Streams.get_list_id_by_socket str_manager.Table.index str_manager.Ports.add_socket
    str_manager.Ports.init_socket str_manager.Streams.add_stream_list
    str_manager.StreamList.get_source_sock_addr str_manager.StreamList.set_source
    str_manager.Manager.Dispatch.add_source_by Manager.get_worker_by_type Manager.save Manager.write
    str_manager.Ports.register str_manager.StreamList.new str_manager.StreamList.set_list_id
    str_manager.Table.put str_manager.Udp.make str_manager.Udp.sock_addr_cmp
    str_manager.Worker.add_source_with
managed_lem = refl

pub idle_lem : remove_source toy managed (pos 5) machine' ≡ ok (pos 0, idle, shut)
unfolding remove_source str_manager.Table.find? str_manager.Manager.Dispatch.remove_source_of
    str_manager.Manager.Dispatch.remove_source_by str_manager.Worker.new
    str_manager.Worker.remove_source str_manager.Streams.get_stream_list str_manager.Table.index
    str_manager.StreamList.get_source_port str_manager.Streams.remove_stream_list
    str_manager.StreamList.get_source_sock_addr Manager.write str_manager.Table.erase
    str_manager.Streams.is_empty str_manager.Table.is_empty str_manager.Worker.stop
    str_manager.Ports.remove_socket str_manager.Ports.unregister str_manager.Udp.port_of
    str_manager.Udp.sock_addr_cmp str_manager.Table.put
idle_lem = refl

managed-Reach : Reach toy 2 managed
managed-Reach = stepped created (source_added (pos 1) (pos 5) "host" (pos 7000) machine managed_lem)

Reach-IsPool_example : IsPool 2 managed
Reach-IsPool_example = Reach-IsPool toy 2 managed-Reach

pool_size_example : length managed.worker_id_worker ≤ 2
pool_size_example = pool_size toy 2 managed-Reach

remove_source-Suited_example :
    (w' : Worker) × (sent : List Message) × (remove_source_of toy owner (pos 5) machine'
      ≡ ok (w', sent, shut))
    × ((sent ≡ []) ⊎ (w'.working ≡ false))
    × (get_elem? idle.heap 0 ≡ some w')
    × (find? (pos 0) idle.worker_id_worker ≡ some 0)
    × (idle.queue ≡ managed.queue ++ sent)
    × (get_worker idle (pos 1) (pos 7000) ≡ (some 0, idle))
unfolding str_manager.Table.find? str_manager.Worker.is_worker_type str_manager.Worker.new
remove_source-Suited_example =
    remove_source-Suited toy managed (pos 1) (pos 7000) (pos 0) (pos 5) 0 owner machine' refl
      ((λ w there typed. refl), tt) refl refl refl idle_lem
