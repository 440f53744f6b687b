-- ===== src/Console/Session.antt =====
-- Sessions of the command line, from the start of `main` on.
use Prim.Native.String.{String, []}
use str_manager.Prelude.{ℕ, ◌≡◌, refl, Bool, true, false, List, [], ◌∷◌, arith}
use str_manager.Int.{ℤ, ◌==◌}
use str_manager.Run.{Run, ok, Returns}
use str_manager.System.{System, SystemLaws}
use str_manager.Message.{rtcp_worker_type}
use str_manager.Table.{find?}
use str_manager.Table.Keys.{int_key}
use str_manager.Manager
use str_manager.Manager.{Manager}
use str_manager.Manager.Pool.{below}
use str_manager.Manager.Book.Executions.{started}
use str_manager.Print.Pages.{printers_return}
use str_manager.Console.{
  Console, Reply, start, silent, ended, logged, printed, perform, execute, session,
}
use str_manager.Console.Parse.{
  Command, empty, addsource, remsource, adddestination, remdestination, remip, printm, printf,
  printp, help, exit, bad, parse,
}
use str_manager.Console.Logged.{log_code-Logged, log_text-Logged}
use str_manager.Console.Lines.{parse-Returns}
use str_manager.Console.Running.{
  Running, add_source-Running, remove_source-Running, add_destination-Running,
  remove_destination-Running,
}

-- The worker type is not RTCP's, a port has 16 bits, and the table of ports is not printed.
abbrev pub Admissible : Command → Type 0
Admissible (addsource type ip port) =
    ((type == rtcp_worker_type) ≡ false) × (below 0x1_0000 port ≡ true)
Admissible printp = true ≡ false
Admissible _ = Unit

abbrev pub AllAdmissible : List String → Type 0
AllAdmissible [] = Unit {0}
AllAdmissible (line ∷ lines) =
    ((c : Command) → parse line ≡ ok c → Admissible c) × AllAdmissible lines

module _ {S : Type 0} (sys : System S) (opened : S → ℤ → Bool) (laws : SystemLaws sys opened)
    (max_workers : ℕ) where
  module _ {c : Console} {s : S} (before : Running sys opened max_workers c s) where
    abbrev Told : Run (Reply × Console × S) → Type 0
    Told r = Returns r (λ v. Running sys opened max_workers v.1 v.2)

    perform-Running :
        (debug : Bool) (command : Command)
        → Admissible command
        → Told (perform sys max_workers debug command c s)
    unfolding perform
    perform-Running debug empty h = (_, refl, before)
    perform-Running debug (addsource type ip port) (plain, range) =
        log_code-Logged sys max_workers (Running sys opened max_workers) before debug _
          (add_source-Running sys opened laws max_workers before type ip port plain range)
    perform-Running debug (remsource src_id) h =
        log_code-Logged sys max_workers (Running sys opened max_workers) before debug _
          (remove_source-Running sys opened laws max_workers before src_id)
    perform-Running debug (adddestination src_id ip port) h =
        log_code-Logged sys max_workers (Running sys opened max_workers) before debug _
          (add_destination-Running sys opened laws max_workers before src_id ip port)
    perform-Running debug (remdestination src_id dest_id) h =
        log_code-Logged sys max_workers (Running sys opened max_workers) before debug _
          (remove_destination-Running sys opened laws max_workers before src_id dest_id)
    perform-Running debug (remip text) h = (_, refl, before)
    perform-Running debug printm h =
        log_text-Logged sys max_workers (Running sys opened max_workers) before debug _
          (printers_return sys opened laws max_workers before.execution).0
    perform-Running debug printf h =
        log_text-Logged sys max_workers (Running sys opened max_workers) before debug _
          (printers_return sys opened laws max_workers before.execution).1
    perform-Running debug printp h = cc
    perform-Running debug help h = (_, refl, before)
    perform-Running debug exit h = (_, refl, before)
    perform-Running debug (bad line) h = (_, refl, before)

    execute-Running :
        (debug : Bool) (line : String)
        → ((command : Command) → parse line ≡ ok command → Admissible command)
        → Told (execute sys max_workers debug line c s)
    unfolding execute
    execute-Running debug line h =
        let (command, read, u) = parse-Returns line in
        rw (read, execute) (perform-Running debug command (h command read))

  session-Running :
      (debug : Bool) (lines : List String) {c : Console} {s : S}
      → Running sys opened max_workers c s
      → AllAdmissible lines
      → Returns
          (session sys max_workers debug lines c s)
          (λ v. Running sys opened max_workers v.0 v.1)
  unfolding session
  session-Running debug [] before all = (_, refl, before)
  session-Running debug (line ∷ lines) before (h, all) =
      let ((reply, c', s'), ran, running) = execute-Running before debug line h in
      rw ran (goes_on reply (session-Running debug lines running all) running)
    where
      goes_on :
          (reply : Reply) {c' : Console} {s' : S} {rest : Run (Console × S)}
          → Returns rest (λ v. Running sys opened max_workers v.0 v.1)
          → Running sys opened max_workers c' s'
          → Returns
              (elim reply [
                | ended ↦ ok (c', s')
                | silent ↦ rest
                | logged _ ↦ rest
                | printed _ ↦ rest
              ])
              (λ v. Running sys opened max_workers v.0 v.1)
      goes_on silent r running = r
      goes_on ended r running = (_, refl, running)
      goes_on (logged text) r running = r
      goes_on (printed text) r running = r

  start-Running : (s : S) → Running sys opened max_workers start s
  unfolding start Manager.new find?
  start-Running s = record {
    execution = started s;
    flow = 100;
    numbered = refl;
    positive = omega arith;
    fresh = λ j h. cc;
  }

  -- A session returns from the start on, on every input of which all lines are admissible: no `addsource`
  -- has RTCP's type or a port of more than 16 bits, and no `printp` occurs. It leaves the manager as an
  -- execution does, and the next identifier above those of all sources.
  pub session-Returns :
      (debug : Bool) (lines : List String) (s : S)
      → AllAdmissible lines
      → Returns
          (session sys max_workers debug lines start s)
          (λ v. Running sys opened max_workers v.0 v.1)
  session-Returns debug lines s all = session-Running debug lines (start-Running s) all
