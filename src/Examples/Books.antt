-- ===== src/Examples/Books.antt =====
-- The theorems on executions and on the abstract view of a manager, each applied to a manager with a
-- worker that has a source.
use str_manager.Prelude.{refl, arith, []}
use str_manager.Int.{pos}
use str_manager.Run.{Returns}
use str_manager.System.Toy.{toy, toy_laws, opened}
use str_manager.Udp
use str_manager.StreamList.Destinations.{remove}
use str_manager.Worker.Lists.{extend}
use str_manager.Manager
use str_manager.Manager.{
  Manager, add_source, remove_source, add_destination, remove_destination, write,
}
use str_manager.Manager.Sound.{Sound}
use str_manager.Manager.Book.Sources.{Entered, add_source-Entered}
use str_manager.Manager.Book.Removal.{Left, remove_source-Left}
use str_manager.Manager.Book.Destinations.{
  Adjusted, add_destination-Adjusted, remove_destination-Adjusted,
}
use str_manager.Manager.Book.Executions.{
  Execution, Step, Action, started, then_step, source_added, Step-Action, Execution-Sound,
}
use str_manager.Manager.Book.Delivery.{Served, Execution-Served}
use str_manager.Examples.{machine, machine', source}
use str_manager.Examples.Managers.{managed, managed_lem}

added : Step toy opened 2 Manager.new machine managed machine'
unfolding Manager.new str_manager.Table.find?
added = source_added (pos 1) (pos 5) "host" 7000 refl refl refl (omega arith) managed_lem

pub managed-Execution : Execution toy opened 2 managed machine'
managed-Execution = then_step (started machine) added

Execution-Sound_example : Sound toy opened managed.heap managed.src_id_worker machine'
Execution-Sound_example = Execution-Sound toy opened toy_laws 2 managed-Execution

Execution-Served_example : Served toy opened toy_laws 2 managed machine' (pos 5) source []
unfolding str_manager.Table.find? str_manager.Table.value
Execution-Served_example =
    Execution-Served toy opened toy_laws 2 (pos 5) source [] managed-Execution refl

Step-Action_example :
    Sound toy opened managed.heap managed.src_id_worker machine' × Action toy opened 2 added
Step-Action_example =
    Step-Action toy opened toy_laws 2 (Execution-Sound toy opened toy_laws 2 (started machine))
      added

add_source-Entered_example :
    Returns
      (add_source toy 2 managed (pos 1) (pos 6) "host" (pos 7001) machine')
      (Entered toy opened managed (pos 6) "host" (pos 7001))
unfolding str_manager.Table.find?
add_source-Entered_example =
    add_source-Entered toy opened toy_laws 2
      (Execution-Sound toy opened toy_laws 2 managed-Execution) (pos 1) (pos 6) "host" 7001 refl
      refl refl (omega arith)

remove_source-Left_example :
    Returns (remove_source toy managed (pos 5) machine') (Left toy opened toy_laws managed (pos 5))
remove_source-Left_example =
    remove_source-Left toy opened toy_laws managed
      (Execution-Sound toy opened toy_laws 2 managed-Execution) (pos 5)

add_destination-Adjusted_example :
    Returns (add_destination toy managed (pos 5) (pos 8) "name" (pos 9000) machine') (
      Adjusted toy opened managed
        (pos 5)
        (extend (Udp.make toy machine' (pos 8) "name" (pos 9000)))
        machine')
add_destination-Adjusted_example =
    add_destination-Adjusted toy opened managed
      (Execution-Sound toy opened toy_laws 2 managed-Execution) (pos 5) (pos 8) "name" (pos 9000)

remove_destination-Adjusted_example :
    Returns
      (remove_destination managed (pos 5) (pos 8))
      (Adjusted toy opened managed (pos 5) (remove (pos 8)) machine')
remove_destination-Adjusted_example =
    remove_destination-Adjusted toy opened managed
      (Execution-Sound toy opened toy_laws 2 managed-Execution) (pos 5) (pos 8)
