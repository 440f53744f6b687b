-- ===== src/Console/Serving.antt =====
-- The handlers of the web service against the executions of the manager.
use Prim.Native.String.{String}
use str_manager.Prelude.{ℕ, ◌≡◌, refl, Bool, true, false, none, arith}
use str_manager.Int.{ℤ, pos, negsuc, ◌==◌}
use str_manager.Run.{Run, fault, dangling_pointer, ok, Returns}
use str_manager.System.{System, SystemLaws}
use str_manager.Message.{rtcp_worker_type}
use str_manager.Table.{find?}
use str_manager.Table.Keys.{int_key}
use str_manager.Manager.Pool.{below}
use str_manager.Manager.Sound.{Sound}
use str_manager.Manager.Book.Sources.{add_source-Entered}
use str_manager.Manager.Book.Removal.{remove_source-Left}
use str_manager.Manager.Book.Destinations.{add_destination-Adjusted, remove_destination-Adjusted}
use str_manager.Manager.Book.Executions.{
  Execution, Execution-Sound, then_step, source_added, source_removed, destination_added,
  destination_removed,
}
use str_manager.Print.{print_management, print_forwarding}
use str_manager.Print.Pages.{printers_return}
use str_manager.Console.{
  Console, Reply, perform, add_source, remove_source, add_destination, remove_destination,
}
use str_manager.Console.Parse.{
  Command, empty, addsource, remsource, adddestination, remdestination, remip, printm, printf,
  printp, help, exit, bad, parse,
}
use str_manager.Console.Lines.{parse-Returns}
use str_manager.Console.Logged.{log_code-Logged, log_text-Logged}
use str_manager.Console.Web.{
  Request, command_sent, source_sent, source_removal, destination_sent, destination_removal,
  management_asked, forwarding_asked, ports_asked, Response, web_perform, coded, printed_to, serve,
}

-- A source that may be added: the worker type is not RTCP's, the identifier is not 0 and not in use, and
-- the port has 16 bits.
abbrev pub IsNew : Console → (type src_id port : ℤ) → Type 0
IsNew c type src_id port =
    ((type == rtcp_worker_type) ≡ false)
    × ((src_id == pos 0) ≡ false)
    × (find? src_id c.manager.src_id_worker ≡ none)
    × (below 0x1_0000 port ≡ true)

abbrev pub IsFitCommand : Console → Command → Type 0
IsFitCommand c (addsource type ip port) = IsNew c type c.flow_id port
IsFitCommand c printp = true ≡ false
IsFitCommand c _ = Unit

-- A request that adds no source but a new one, and is not one of the three that ask for a table.
abbrev pub IsFit : Console → Request → Type 0
IsFit c (command_sent line) = (command : Command) → parse line ≡ ok command → IsFitCommand c command
IsFit c (source_sent type src_id ip port) = IsNew c type src_id port
IsFit c management_asked = true ≡ false
IsFit c forwarding_asked = true ≡ false
IsFit c ports_asked = true ≡ false
IsFit c _ = Unit

module _ {S : Type 0} (sys : System S) (opened : S → ℤ → Bool) (max_workers : ℕ) where
  pub record Executed (c : Console) (s : S) : Type 0 where
    pub execution : Execution sys opened max_workers c.manager s

module _ {S : Type 0} (sys : System S) (opened : S → ℤ → Bool) (laws : SystemLaws sys opened)
    (max_workers : ℕ) where
  module _ {c : Console} {s : S} (before : Executed sys opened max_workers c s) where
    sound : Sound sys opened c.manager.heap c.manager.src_id_worker s
    sound = Execution-Sound sys opened laws max_workers before.execution

    abbrev Kept : Run (ℤ × Console × S) → Type 0
    Kept r = Returns r (λ v. Executed sys opened max_workers v.1 v.2)

    add_source-Executed :
        (type src_id : ℤ) (ip : String) (port : ℤ)
        → IsNew c type src_id port
        → Kept (add_source sys max_workers type src_id ip port c s)
    unfolding add_source
    add_source-Executed type src_id ip (negsuc q) (plain, nonzero, unknown, range) = cc
    add_source-Executed type src_id ip (pos q) (plain, nonzero, unknown, range) =
        let ((r, m', s'), ran, o) =
          add_source-Entered sys opened laws max_workers {m = c.manager} sound type src_id ip q
            plain nonzero unknown (ground arith) in
        rw ran (
          _,
          refl,
          record {
            execution =
                then_step before.execution
                  (source_added type src_id ip q plain nonzero unknown (ground arith) ran);
          },
        )

    remove_source-Executed : (src_id : ℤ) → Kept (remove_source sys max_workers src_id c s)
    unfolding remove_source
    remove_source-Executed src_id =
        let ((r, m', s'), ran, o) = remove_source-Left sys opened laws c.manager sound src_id in
        rw ran
          (_, refl, record { execution = then_step before.execution (source_removed src_id ran) })

    add_destination-Executed :
        (src_id dest_id : ℤ) (ip : String) (port : ℤ)
        → Kept (add_destination sys max_workers src_id dest_id ip port c s)
    unfolding add_destination
    add_destination-Executed src_id dest_id ip port =
        let ((r, m'), ran, o) =
          add_destination-Adjusted sys opened c.manager sound src_id dest_id ip port in
        rw ran (
          _,
          refl,
          record {
            execution = then_step before.execution (destination_added src_id dest_id ip port ran);
          },
        )

    remove_destination-Executed :
        (src_id dest_id : ℤ) → Kept (remove_destination sys max_workers src_id dest_id c s)
    unfolding remove_destination
    remove_destination-Executed src_id dest_id =
        let ((r, m'), ran, o) =
          remove_destination-Adjusted sys opened c.manager sound src_id dest_id in
        rw ran (
          _,
          refl,
          record {
            execution = then_step before.execution (destination_removed src_id dest_id ran);
          },
        )

    abbrev Told : Run (Reply × Console × S) → Type 0
    Told r = Returns r (λ v. Executed sys opened max_workers v.1 v.2)

    web_perform-Executed :
        (debug : Bool) (command : Command)
        → IsFitCommand c command
        → Told (web_perform sys max_workers debug command c s)
    unfolding web_perform perform
    web_perform-Executed debug empty h = (_, refl, before)
    web_perform-Executed debug (addsource type ip port) h =
        log_code-Logged sys max_workers (Executed sys opened max_workers) before debug _
          (add_source-Executed type c.flow_id ip port h)
    web_perform-Executed debug (remsource src_id) h =
        log_code-Logged sys max_workers (Executed sys opened max_workers) before debug _
          (remove_source-Executed src_id)
    web_perform-Executed debug (adddestination src_id ip port) h =
        log_code-Logged sys max_workers (Executed sys opened max_workers) before debug _
          (add_destination-Executed src_id c.flow_id ip port)
    web_perform-Executed debug (remdestination src_id dest_id) h =
        log_code-Logged sys max_workers (Executed sys opened max_workers) before debug _
          (remove_destination-Executed src_id dest_id)
    web_perform-Executed debug (remip text) h = (_, refl, before)
    web_perform-Executed debug printm h =
        log_text-Logged sys max_workers (Executed sys opened max_workers) before debug _
          (printers_return sys opened laws max_workers before.execution).0
    web_perform-Executed debug printf h =
        log_text-Logged sys max_workers (Executed sys opened max_workers) before debug _
          (printers_return sys opened laws max_workers before.execution).1
    web_perform-Executed debug printp h = cc
    web_perform-Executed debug help h = (_, refl, before)
    web_perform-Executed debug exit h = (_, refl, before)
    web_perform-Executed debug (bad line) h = (_, refl, before)

    abbrev Answered : Run (Response × Console × S) → Type 0
    Answered r = Returns r (λ v. Executed sys opened max_workers v.1 v.2)

    coded-Executed :
        (call : Run (ℤ × Console × S)) → Kept call → Answered (coded sys max_workers call)
    unfolding coded
    coded-Executed call (v, ran, after) = rw ran (_, refl, after)

    pub serve-Executed :
        (debug : Bool) (request : Request)
        → IsFit c request
        → Answered (serve sys max_workers debug request c s)
    unfolding serve
    serve-Executed debug (command_sent line) h =
        let (command, read, u) = parse-Returns line in
        let (v, ran, after) = web_perform-Executed debug command (h command read) in
        rw (read, ran) (_, refl, after)
    serve-Executed debug (source_sent type src_id ip port) h =
        coded-Executed _ (add_source-Executed type src_id ip port h)
    serve-Executed debug (source_removal src_id) h =
        coded-Executed _ (remove_source-Executed src_id)
    serve-Executed debug (destination_sent src_id dest_id raw port) h =
        coded-Executed _ (add_destination-Executed src_id dest_id raw port)
    serve-Executed debug (destination_removal src_id dest_id) h =
        coded-Executed _ (remove_destination-Executed src_id dest_id)
    serve-Executed debug management_asked h = cc
    serve-Executed debug forwarding_asked h = cc
    serve-Executed debug ports_asked h = cc

    -- In every execution in which no source is added of RTCP's type, with the identifier 0 or one in use, or
    -- at a port of more than 16 bits, the requests for the tables of streams print them without a fault, and
    -- then end in one: the runtime reads the answer through a dangling pointer.
    pub serve-dangles :
        (debug : Bool)
        → (Returns (print_management sys c.manager) (λ text. Unit {0})
            × (serve sys max_workers debug management_asked c s ≡ fault dangling_pointer))
          × (Returns (print_forwarding c.manager) (λ text. Unit {0})
              × (serve sys max_workers debug forwarding_asked c s ≡ fault dangling_pointer))
    unfolding serve printed_to
    serve-dangles debug =
        let (lists, sources) = printers_return sys opened laws max_workers before.execution in
        ((lists, rw lists.1 refl), (sources, rw sources.1 refl))
