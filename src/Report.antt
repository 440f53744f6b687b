-- ===== src/Report.antt =====
-- `StatsWorker::generateStats`: one round of the second thread that a worker of this class runs, which
-- takes the counters of the worker and updates the rate of each of its lists.
pub mod Alike
pub mod Quiet
use str_manager.Prelude.{ℕ, Option, none, some, List, [], ◌∷◌}
use str_manager.Int.{ℤ, pos, div_by}
use str_manager.Run.{Run, ok, fault, null_pointer, ◌>>=◌}
use str_manager.System.{System}
use str_manager.Table.{Table}
use str_manager.StreamList.{StreamList}
use str_manager.StreamList.Stats.{update, add_s32}
use str_manager.Worker.{Worker}

-- What the round prints, in kilobits per second.
pub record Report : Type 0 where
  pub input_rate : ℤ
  pub output_rate : ℤ
  pub total_rate : ℤ

module _ {S : Type 0} (sys : System S) where
  -- The loop over the lists. A null pointer is logged; the cast of a list that is not of the subclass
  -- gives a null pointer, which the code follows.
  unfoldable pub update_lists :
      Table ℤ (Option StreamList) → S → Run (Table ℤ (Option StreamList) × S)
  update_lists [] s = ok ([], s)
  update_lists (e ∷ es) s = elim e.1 [
    | none ↦ do (es', s') ← update_lists es s; ok (e ∷ es', s')
    | some l ↦ elim l.rates [
      | none ↦ fault null_pointer
      | some r ↦ do
        let (l', s₁) = update sys l r s
        (es', s') ← update_lists es s₁
        ok ((e.0, some l') ∷ es', s')
    ]
  ]

  -- One round, after its sleep.
  unfoldable pub generate_stats : Worker → S → Run (Report × Worker × S)
  generate_stats w s = do
    let input = div_by w.input_bytes 1250
    let output = div_by w.output_bytes 1250
    (t, s') ← update_lists w.streams.management s
    ok (
      record { input_rate = input; output_rate = output; total_rate = add_s32 input output },
      record w {
        input_bytes = pos 0;
        output_bytes = pos 0;
        streams = record w.streams { management = t };
      },
      s',
    )
