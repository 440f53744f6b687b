-- ===== src/Examples/Server.antt =====
-- The theorems on the web service, applied to a small runtime that has the requests in a list.
use str_manager.Prelude.{refl, Bool, true, false, Option, none, some, List, [], ◌∷◌}
use str_manager.Int.{pos}
use str_manager.Run.{Returns}
use str_manager.System.Toy.{toy, toy_laws, opened}
use str_manager.Console.{start}
use str_manager.Console.Web.{Request, source_sent, destination_sent, destination_removal}
use str_manager.Console.Server.{Soap, main}
use str_manager.Console.Serving.{Executed}
use str_manager.Console.Listening.{AllFit, main-Returns}
use str_manager.Examples.{machine}

-- `none` is a request that the runtime cannot read.
abbrev Line : Type 0
Line = List (Option Request)

abbrev waiting : Line → Bool
waiting [] = false
waiting (r ∷ rs) = true

abbrev next : Line → Option Request × Line
next [] = (none, [])
next (r ∷ rs) = (r, rs)

abbrev small : Soap Line
small = record {
  bind = λ port x. (true, x);
  accept = λ x. (waiting x, x);
  request = next;
  answer = λ r x. x;
}

abbrev requests : Line
requests =
    some (source_sent (pos 1) (pos 7) "host" (pos 7000))
    ∷ none
    ∷ some (destination_sent (pos 7) (pos 8) "name" (pos 9000))
    ∷ some (destination_removal (pos 7) (pos 8))
    ∷ []

fit : AllFit toy opened toy_laws 2 small 5 true requests start machine
unfolding start str_manager.Manager.new str_manager.Table.find?
fit = ((refl, refl, refl, refl), λ v e on. (tt, λ v' e' on'. (tt, λ v'' e'' on''. tt)))

main-Returns_example :
    Returns
      (main toy 2 small 5 true ("8080" ∷ []) requests machine)
      (λ v. Executed toy opened 2 v.1 v.2)
main-Returns_example =
    main-Returns toy opened toy_laws 2 small 5 true ("8080" ∷ []) requests machine (λ port. fit)
