-- ===== src/Manager/Book/Pooled.antt =====
-- The executions of a manager on one machine, seen as executions of the manager alone.
use str_manager.Prelude.{◌≡◌, inl, inr, ℕ, subst, Bool, [], arith}
use mathlib.Core.List.{append-nil}
use str_manager.Int.{ℤ, pos}
use str_manager.System.{System}
use str_manager.Run.{Run-cases, ok}
use str_manager.Report.{Report, update_lists, generate_stats}
use str_manager.Message.{Class, forward, rtcp, stats}
use str_manager.Worker.{Worker}
use str_manager.Worker.Loop.{process, forward_process, stats_process, receiver, count_packet}
use str_manager.Manager.{Manager, write}
use str_manager.Manager.Identity.{SameIdentity}
use str_manager.Manager.Pool.{IsPool}
use str_manager.Manager.Reach
use str_manager.Manager.Reach.{Reach, Reach-IsPool, created, stepped}
use str_manager.Manager.Book.Executions.{
  Execution, Step, started, then_step, source_added, source_removed, destination_added,
  destination_removed, message_handled, packet_processed, stamp_read, stats_reported, machine_ran,
}

module _ {S : Type 0} (sys : System S) where
  -- A packet leaves the identity of a worker alone.
  process-SameIdentity :
      (c : Class) (w : Worker) (fd : ℤ) (s : S) → SameIdentity w (process sys c w fd s).0
  unfolding process forward_process stats_process count_packet receiver
  process-SameIdentity forward w fd s = record {
    class_same = ground arith;
    id_same = ground arith;
    type_same = ground arith;
  }
  process-SameIdentity rtcp w fd s = record {
    class_same = ground arith;
    id_same = ground arith;
    type_same = ground arith;
  }
  process-SameIdentity stats w fd s = record {
    class_same = ground arith;
    id_same = ground arith;
    type_same = ground arith;
  }

  generate_stats-SameIdentity :
      (w : Worker) (s : S) {r : Report × Worker × S}
      → generate_stats sys w s ≡ ok r
      → SameIdentity w r.1
  unfolding generate_stats
  generate_stats-SameIdentity w s e = elim (Run-cases (update_lists sys w.streams.management s)) [
    | inl (failure, faulty) ↦ absurd (ground arith)
    | inr ((t, s₁), ran) ↦ record {
      class_same = ground arith;
      id_same = ground arith;
      type_same = ground arith;
    }
  ]

  module _ {opened : S → ℤ → Bool} {k : ℕ} where
    reach :
        {m : Manager} {s : S} {m' : Manager} {s' : S}
        → Reach sys k m
        → Step sys opened k m s m' s'
        → Reach sys k m'
    unfolding write
    reach r (source_added type src_id ip q plain nonzero unknown range e) =
        stepped r (Reach.source_added type src_id ip (pos q) _ e)
    reach r (source_removed src_id e) = stepped r (Reach.source_removed src_id _ e)
    reach r (destination_added src_id dest_id ip port e) =
        stepped r (Reach.destination_added src_id dest_id ip port _ e)
    reach r (destination_removed src_id dest_id e) =
        stepped r (Reach.destination_removed src_id dest_id e)
    reach r message_handled = stepped r Reach.message_handled
    reach {m} {s} r (packet_processed p w fd port there registered) =
        let w' = (process sys w.class w fd s).0 in
        subst (λ q. Reach sys k (record (write m p w') { queue = q })) (append-nil m.queue)
          (stepped r (Reach.worker_ran p w w' [] there (process-SameIdentity w.class w fd s)))
    reach r (stamp_read src_id e) = stepped r (Reach.stamp_read src_id _ e)
    reach {m} {s} r (stats_reported p w {report} {w'} there counts e) =
        subst (λ q. Reach sys k (record (write m p w') { queue = q })) (append-nil m.queue)
          (stepped r (Reach.worker_ran p w w' [] there (generate_stats-SameIdentity w s e)))
    reach r (machine_ran still) = r

    pub Execution-IsPool : {m : Manager} {s : S} → Execution sys opened k m s → IsPool k m
    Execution-IsPool before = Reach-IsPool sys k (reached before)
      where
        reached : {m : Manager} {s : S} → Execution sys opened k m s → Reach sys k m
        reached (started s) = created
        reached (then_step before step) = reach (reached before) step
