-- ===== src/Manager/Dispatch.antt =====
-- The virtual methods of a worker, by the class of the object. `RtcpWorker` overrides all four, and
-- `StatsWorker` makes a list of its own class in `addSource` (StatsWorker.cpp).
use str_manager.Prelude.{String, Bool, List, []}
use str_manager.Int.{ℤ}
use str_manager.Run.{Run, ok, ◌>>=◌}
use str_manager.System.{System}
use str_manager.Message.{Message, Class, forward, rtcp, stats}
use str_manager.StreamList.Stats
use str_manager.Worker
use str_manager.Worker.{Worker}
use str_manager.Rtcp

module _ {S : Type 0} (sys : System S) where
  -- `StatsWorker::addSource`; the constructor of its list reads the clock.
  unfoldable pub stats_add_source : Worker → ℤ → String → ℤ → S → Run (Bool × Worker × S)
  stats_add_source w src_id ip port s =
      let (l, s') = Stats.new sys s in Worker.add_source_with sys w src_id ip port l s'

  unfoldable pub add_source_by : Class → Worker → ℤ → String → ℤ → S → Run (Bool × Worker × S)
  add_source_by forward = Worker.add_source sys
  add_source_by rtcp = Rtcp.add_source sys
  add_source_by stats = stats_add_source

  unfoldable pub add_source_of : Worker → ℤ → String → ℤ → S → Run (Bool × Worker × S)
  unfolding add_source_by
  add_source_of w = add_source_by w.class w

  unfoldable pub rtcp_remove_source : Worker → ℤ → S → Run (Worker × List Message × S)
  rtcp_remove_source w src_id s = do (w', s') ← Rtcp.remove_source sys w src_id s; ok (w', [], s')

  unfoldable pub remove_source_by : Class → Worker → ℤ → S → Run (Worker × List Message × S)
  unfolding rtcp_remove_source
  remove_source_by forward = Worker.remove_source sys
  remove_source_by rtcp = rtcp_remove_source
  remove_source_by stats = Worker.remove_source sys

  unfoldable pub remove_source_of : Worker → ℤ → S → Run (Worker × List Message × S)
  unfolding remove_source_by
  remove_source_of w = remove_source_by w.class w

  unfoldable pub add_destination_by : Class → Worker → ℤ → ℤ → String → ℤ → S → Run Worker
  add_destination_by forward = Worker.add_destination_to sys
  add_destination_by rtcp = Rtcp.add_destination_to sys
  add_destination_by stats = Worker.add_destination_to sys

  unfoldable pub add_destination_of : Worker → ℤ → ℤ → String → ℤ → S → Run Worker
  unfolding add_destination_by
  add_destination_of w = add_destination_by w.class w

unfoldable pub remove_destination_by : Class → Worker → ℤ → ℤ → Run Worker
remove_destination_by forward = Worker.remove_destination
remove_destination_by rtcp = Rtcp.remove_destination
remove_destination_by stats = Worker.remove_destination

unfoldable pub remove_destination_of : Worker → ℤ → ℤ → Run Worker
unfolding remove_destination_by
remove_destination_of w = remove_destination_by w.class w
