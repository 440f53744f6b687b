-- ===== src/Examples/Workers.antt =====
-- The theorems on workers, each applied to a worker on the small machine.
use str_manager.Prelude.{◌≡◌, refl, [], ◌∷◌, some, arith}
use str_manager.Int.{pos}
use str_manager.Run.{Returns}
use str_manager.System.{SockAddr}
use str_manager.System.Toy.{toy, opened, toy_laws}
use str_manager.StreamList.{StreamList, Rates, exist_destination}
use str_manager.Streams.Views.{list_at, route, Unlinked}
use str_manager.Udp
use str_manager.Worker.{
  Worker, add_source_with, remove_source, add_destination_to, remove_destination,
}
use str_manager.Worker.Valid.{IsValid}
use str_manager.Worker.Sources.{add_source_with-IsValid, Outcome}
use str_manager.Worker.Removal.{remove_source-IsValid, Reported}
use str_manager.Worker.Destinations.{add_destination_to-IsValid, Reroutes, addrs}
use str_manager.Worker.Loop.{forward_process, stats_process}
use str_manager.Worker.Loop.Counting.{stats_process-counts}
use str_manager.Ports.Sockets.{port_of}
use str_manager.Worker.Loop.Packets.{forward_process-route, send_each, list_of_sender}
use str_manager.Examples.{
  machine, machine', start, start-IsValid, fresh, sender, source, list, worker, worker-IsValid,
  listed, served, served_list, served-IsValid, destination, counter, counter-IsValid, later', rates,
  measured_list,
}

served_listed : list_at served.streams (pos 5) ≡ some served_list
unfolding str_manager.Table.value str_manager.Table.find?
served_listed = refl

registered : port_of counter.ports (pos 3) ≡ some (pos 7000)
unfolding str_manager.Table.find?
registered = refl

counter_listed :
    list_of_sender toy opened toy_laws counter-IsValid (pos 3) (pos 7000) registered
    ≡ some measured_list
unfolding str_manager.Table.value str_manager.Table.find? Udp.sock_addr_cmp
counter_listed = refl

add_source_with-IsValid_example :
    Returns (add_source_with toy start (pos 5) "host" (pos 7000) fresh machine) λ r.
      IsValid toy opened r.1 r.2
      × Outcome toy opened toy_laws start-IsValid (pos 5) "host" 7000 fresh r.0 r.1
unfolding str_manager.Table.value str_manager.Table.find? str_manager.Worker.new
add_source_with-IsValid_example =
    add_source_with-IsValid toy opened toy_laws start-IsValid (pos 5) "host" 7000 fresh refl refl
      (omega arith)

remove_source-IsValid_example : Returns (remove_source toy served (pos 5) machine') λ r.
    IsValid toy opened r.0 r.2
    × Unlinked served.streams r.0.streams (pos 5) source.addr
    × Reported toy opened toy_laws served-IsValid
        (pos 5)
        served_list
        source
        served_listed
        refl
        r.0
        r.1
remove_source-IsValid_example =
    remove_source-IsValid toy opened toy_laws served-IsValid (pos 5) served_list source
      served_listed refl

add_destination_to-IsValid_example :
    Returns (add_destination_to toy worker (pos 5) (pos 8) "name" (pos 9000) machine') λ w'.
      IsValid toy opened w' machine'
      × Reroutes worker.streams w'.streams sender
          (addrs (Udp.make toy machine' (pos 8) "name" (pos 9000) ∷ []))
unfolding str_manager.Table.value str_manager.Table.find? exist_destination
add_destination_to-IsValid_example =
    add_destination_to-IsValid toy opened worker-IsValid (pos 5) list source listed refl (pos 8)
      "name" (pos 9000)

forward_process-route_example :
    let r = forward_process toy served (pos 3) machine' in
    (r.1
      ≡ send_each toy
          (pos 3)
          12
          (destination.addr ∷ [])
          (toy.time (toy.recvfrom machine' (pos 3)).1).1)
    × IsValid toy opened r.0 r.1
    × ((a : SockAddr) → route r.0.streams a ≡ route served.streams a)
unfolding str_manager.Table.find? str_manager.Table.value Udp.sock_addr_cmp route
forward_process-route_example =
    forward_process-route toy opened toy_laws served-IsValid (pos 3) (pos 7000) refl refl

stats_process-counts_example :
    let p = stats_process toy counter (pos 3) later' in
    (p.1 ≡ send_each toy (pos 3) 12 [] (toy.recvfrom later' (pos 3)).1)
    × IsValid toy opened p.0 p.1
    × ((a : SockAddr) → route p.0.streams a ≡ route counter.streams a)
    × (p.0.input_bytes ≡ pos 12)
    × (list_at p.0.streams (pos 5)
        ≡ some (record measured_list { rates = some (record rates { input_bytes = pos 12 }) }))
unfolding route str_manager.Worker.new str_manager.Table.value
    str_manager.StreamList.Stats.update_input_bytes str_manager.Table.find?
    str_manager.StreamList.Stats.add_s32 Udp.sock_addr_cmp
stats_process-counts_example =
    stats_process-counts toy opened toy_laws counter-IsValid (pos 3) (pos 7000) registered
      measured_list rates counter_listed refl refl
