-- ===== src/Console/Running.antt =====
-- The calls of the command line, as steps of an execution of the manager, and `flowId` against the
-- identifiers in use.
use Prim.Native.String.{String}
use str_manager.Prelude.{
  ℕ, suc, ◌≤◌, ◌≡◌, refl, ◌⊎◌, Bool, true, false, none, arith, Option-cases, inl, inr,
}
use str_manager.Int.{ℤ, pos, negsuc, ◌==◌}
use str_manager.Run.{Run, Returns}
use str_manager.System.{System, SystemLaws}
use str_manager.Message.{rtcp_worker_type}
use str_manager.Table.{find?}
use str_manager.Table.Keys.{int_key}
use str_manager.Ports.Local.{is_some}
use str_manager.Manager.{Manager}
use str_manager.Manager.Pool.{below}
use str_manager.Manager.Sound.{Sound}
use str_manager.Manager.Book.{book}
use str_manager.Manager.Book.Sources.{add_source-Entered}
use str_manager.Manager.Book.Removal.{remove_source-Left}
use str_manager.Manager.Book.Destinations.{add_destination-Adjusted, remove_destination-Adjusted}
use str_manager.Manager.Book.Executions.{
  Execution, Execution-Sound, then_step, source_added, source_removed, destination_added,
  destination_removed,
}
use str_manager.Console.{Console, add_source, remove_source, add_destination, remove_destination}

module _ {S : Type 0} (sys : System S) (opened : S → ℤ → Bool) (max_workers : ℕ) where
  pub record Running (c : Console) (s : S) : Type 0 where
    pub execution : Execution sys opened max_workers c.manager s
    pub flow : ℕ
    pub numbered : c.flow_id ≡ pos flow
    pub positive : 1 ≤ flow
    pub fresh : (j : ℤ) → is_some (book c.manager j) ≡ true → below flow j ≡ true

below-suc : (f : ℕ) (j : ℤ) → below f j ≡ true → below (suc f) j ≡ true
below-suc f (pos a) h = ground arith
below-suc f (negsuc a) h = cc

below_self : (f : ℕ) (j : ℤ) → (j == pos f) ≡ true → below (suc f) j ≡ true
below_self f (pos a) h = ground arith
below_self f (negsuc a) h = cc

module _ {S : Type 0} (sys : System S) (opened : S → ℤ → Bool) (laws : SystemLaws sys opened)
    (max_workers : ℕ) where
  known-book :
      (m : Manager) {s : S}
      → Sound sys opened m.heap m.src_id_worker s
      → (j : ℤ) → is_some (find? j m.src_id_worker) ≡ is_some (book m j)
  known-book m sound j = elim (Option-cases (find? j m.src_id_worker)) [
    | inl unknown ↦ rw unknown refl
    | inr (p, known) ↦ ground (arith, sound.owned j p known)
  ]

  module _ {c : Console} {s : S} (before : Running sys opened max_workers c s) where
    sound : Sound sys opened c.manager.heap c.manager.src_id_worker s
    sound = Execution-Sound sys opened laws max_workers before.execution

    -- No source has the identifier that comes next.
    unused : find? (pos before.flow) c.manager.src_id_worker ≡ none
    unused =
        ground (arith, known-book c.manager sound (pos before.flow), before.fresh (pos before.flow))

    abbrev pub Kept : Run (ℤ × Console × S) → Type 0
    Kept r = Returns r (λ v. Running sys opened max_workers v.1 v.2)

    pub add_source-Running :
        (type : ℤ) (ip : String) (port : ℤ)
        → (type == rtcp_worker_type) ≡ false
        → below 0x1_0000 port ≡ true
        → Kept (add_source sys max_workers type c.flow_id ip port c s)
    unfolding add_source
    add_source-Running type ip (negsuc q) plain range = cc
    add_source-Running type ip (pos q) plain range =
        let ((r, m', s'), ran, o) =
          add_source-Entered sys opened laws max_workers {m = c.manager} sound type
            (pos before.flow) ip q plain (ground (arith, before.positive)) unused (ground arith) in
        rw (before.numbered, ran)
          (
            _,
            refl,
            record {
              execution = then_step before.execution (
                  source_added type (pos before.flow) ip q plain (ground (arith, before.positive))
                    unused (ground arith) ran);
              flow = suc before.flow;
              numbered = refl;
              positive = omega (arith, before.positive);
              fresh = λ j h. grown j (ground (arith, o.books j));
            },
          )
      where
        grown :
            (j : ℤ)
            → ((j == pos before.flow) ≡ true) ⊎ (is_some (book c.manager j) ≡ true)
            → below (suc before.flow) j ≡ true
        grown j (inl same) = below_self before.flow j same
        grown j (inr known) = below-suc before.flow j (before.fresh j known)

    pub remove_source-Running : (src_id : ℤ) → Kept (remove_source sys max_workers src_id c s)
    unfolding remove_source
    remove_source-Running src_id =
        let ((r, m', s'), ran, o) = remove_source-Left sys opened laws c.manager sound src_id in
        rw ran (
          _,
          refl,
          record {
            execution = then_step before.execution (source_removed src_id ran);
            flow = before.flow;
            numbered = before.numbered;
            positive = before.positive;
            fresh = λ j h. ground (arith, before.fresh j, o.books j);
          },
        )

    pub add_destination-Running :
        (src_id : ℤ) (ip : String) (port : ℤ)
        → Kept (add_destination sys max_workers src_id c.flow_id ip port c s)
    unfolding add_destination
    add_destination-Running src_id ip port =
        let ((r, m'), ran, o) =
          add_destination-Adjusted sys opened c.manager sound src_id c.flow_id ip port in
        rw ran (
          _,
          refl,
          record {
            execution = then_step before.execution (destination_added src_id c.flow_id ip port ran);
            flow = suc before.flow;
            numbered = rw before.numbered refl;
            positive = omega (arith, before.positive);
            fresh = λ j h. below-suc before.flow j (ground (arith, before.fresh j, o.books j));
          },
        )

    pub remove_destination-Running :
        (src_id dest_id : ℤ) → Kept (remove_destination sys max_workers src_id dest_id c s)
    unfolding remove_destination
    remove_destination-Running src_id dest_id =
        let ((r, m'), ran, o) =
          remove_destination-Adjusted sys opened c.manager sound src_id dest_id in
        rw ran (
          _,
          refl,
          record {
            execution = then_step before.execution (destination_removed src_id dest_id ran);
            flow = before.flow;
            numbered = before.numbered;
            positive = before.positive;
            fresh = λ j h. ground (arith, before.fresh j, o.books j);
          },
        )
