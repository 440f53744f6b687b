-- ===== src/Examples/Sockets.antt =====
-- The theorems on sockets, each applied to sockets on the small machine.
use str_manager.Prelude.{some, false, ◌⊎◌, ◌≡◌, refl, true}
use str_manager.Int.{ℤ, pos, ◌==◌}
use str_manager.System.Toy.{toy, opened, toy_laws}
use str_manager.Ports
use str_manager.Ports.{has_port, add_socket, remove_socket, build_select_list}
use str_manager.Ports.Sockets.{fd_of}
use str_manager.Ports.Counts.{SamePorts, remove-add_socket}
use str_manager.Run.{Returns, fault, out_of_set}
use str_manager.Worker.Loop.Ready.{all_room, Covers, build_select_list-Covers}
use str_manager.Examples.{machine', worker, worker-IsValid}

remove-add_socket_example :
    let r = add_socket toy worker.ports (pos 8000) machine' in
    let r' = remove_socket toy r.1 (pos 8000) r.2 in
    (r'.0 ≡ (r.0 == pos 1))
    × SamePorts worker.ports r'.1
    × ((f : ℤ) → opened r'.2 f ≡ opened machine' f)
unfolding add_socket str_manager.Table.index Ports.init_socket
remove-add_socket_example =
    remove-add_socket toy opened toy_laws worker-IsValid.sockets (pos 8000) refl

build_select_list-Covers_example :
    ((all_room 1024 worker.ports.port_fd ≡ true)
      × Returns
          (build_select_list toy worker.ports)
          (λ r. (port fd : ℤ) → fd_of worker.ports port ≡ some fd → Covers r fd))
    ⊎ ((all_room 1024 worker.ports.port_fd ≡ false)
        × (build_select_list toy worker.ports ≡ fault out_of_set))
build_select_list-Covers_example = build_select_list-Covers toy worker.ports
