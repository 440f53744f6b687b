-- ===== src/Examples/Consoles.antt =====
-- The theorems on the printers, the command line, the statistics and the message handler, each applied
-- to data of the examples, and runs of the command line.
use Prim.Native.String.{String}
use str_manager.Prelude.{◌≡◌, refl, true, ◌||◌, List, [], ◌∷◌, arith, if◌then◌else◌}
use str_manager.Int.{pos}
use str_manager.Run.{ok, fault, out_of_literal, Returns, of_Returns}
use str_manager.System.Toy.{toy, toy_laws, opened}
use str_manager.Table
use str_manager.Manager.Handler
use str_manager.Manager.Handler.{message_handler, message_handler-Served}
use str_manager.Print.{print_port_fd_of, print_management, print_forwarding}
use str_manager.Print.Ports.{page, is_printable, print_port_fd_of_lem}
use str_manager.Print.Pages.{printers_return}
use str_manager.Console.{Console, start, session}
use str_manager.Console.Parse.{Command, addsource, adddestination, printm, parse}
use str_manager.Console.Lines.{parse-Returns}
use str_manager.Console.RoundTrip.{spell, parse-spell}
use str_manager.Console.Session.{Admissible, AllAdmissible, session-Returns}
use str_manager.Console.Running.{Running}
use str_manager.Report.{generate_stats}
use str_manager.Report.Quiet.{Kept, generate_stats-Kept}
use str_manager.Examples.{machine, worker, counter, counter-IsValid, later'}
use str_manager.Examples.Managers.{managed, idle}
use str_manager.Examples.Books.{managed-Execution}

print_port_fd_of_lem_example : print_port_fd_of worker ≡ (
    if Table.is_empty worker.ports.port_fd || is_printable worker.worker_id
    then ok (page worker)
    else fault out_of_literal)
print_port_fd_of_lem_example = print_port_fd_of_lem worker

printers_return_example :
    Returns (print_management toy managed) (λ text. Unit {0})
    × Returns (print_forwarding managed) (λ text. Unit {0})
printers_return_example = printers_return toy opened toy_laws 2 managed-Execution

abbrev host_added : Command
host_added = addsource (pos 1) "host" (pos 7000)

abbrev name_added : Command
name_added = adddestination (pos 100) "name" (pos 9000)

host_added_lem : parse "addsource 1 host 7000" ≡ ok host_added
unfolding parse str_manager.Console.Parse.parse_addsource
host_added_lem = refl

name_added_lem : parse "adddestination 100 name 9000" ≡ ok name_added
unfolding parse str_manager.Console.Parse.parse_adddestination str_manager.Text.Decimal.atoi
name_added_lem = refl

printm_lem : parse "printm" ≡ ok printm
unfolding parse
printm_lem = refl

abbrev input : List String
input = "addsource 1 host 7000" ∷ "adddestination 100 name 9000" ∷ "printm" ∷ []

admissible :
    (line : String) (c : Command)
    → parse line ≡ ok c
    → Admissible c
    → (d : Command) → parse line ≡ ok d
    → Admissible d
admissible line c read h d e = of_Returns {P = Admissible} (c, read, h) e

input_lem : AllAdmissible input
input_lem = (
  admissible _ host_added host_added_lem (refl, refl),
  (admissible _ name_added name_added_lem tt, (admissible _ printm printm_lem tt, tt)),
)

parse-Returns_example : Returns (parse "addsource 1 host 7000") (λ command. Unit {0})
parse-Returns_example = parse-Returns "addsource 1 host 7000"

parse-spell_example : parse (spell host_added) ≡ ok host_added
parse-spell_example = parse-spell host_added refl

session-Returns_example :
    Returns (session toy 2 true input start machine) (λ v. Running toy opened 2 v.0 v.1)
session-Returns_example = session-Returns toy opened toy_laws 2 true input machine input_lem

generate_stats-Kept_example :
    Returns (generate_stats toy counter later') (Kept toy opened toy_laws counter later')
generate_stats-Kept_example =
    generate_stats-Kept toy opened toy_laws counter later' counter-IsValid (refl, tt)

message_handler-Served_example : Handler.Served idle (message_handler 1 idle)
message_handler-Served_example = message_handler-Served 1 idle refl (omega arith)
