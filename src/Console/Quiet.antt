-- ===== src/Console/Quiet.antt =====
-- The commands run inside of the argument of `LOG4CXX_DEBUG`: what is left of them without it.
use Prim.Native.String.{String, []}
use str_manager.Prelude.{ℕ, ◌≡◌, refl, false, List, [], ◌∷◌}
use str_manager.Run.{Run, ok}
use str_manager.System.{System}
use str_manager.Console.{
  Console, Reply, silent, ended, logged, printed, log_code, log_text, perform, execute, session,
}
use str_manager.Console.Parse.{
  Command, empty, addsource, remsource, adddestination, remdestination, remip, printm, printf,
  printp, help, exit, bad,
}
use str_manager.Console.Lines.{parse-Returns}

module _ {S : Type 0} (sys : System S) (max_workers : ℕ) (c : Console) (s : S) where
  perform-off :
      (command : Command)
      → (reply : Reply) × (perform sys max_workers false command c s ≡ ok (reply, c, s))
  unfolding perform log_code log_text
  perform-off empty = (silent, refl)
  perform-off (addsource type ip port) = (silent, refl)
  perform-off (remsource src_id) = (silent, refl)
  perform-off (adddestination src_id ip port) = (silent, refl)
  perform-off (remdestination src_id dest_id) = (silent, refl)
  perform-off (remip text) = (_, refl)
  perform-off printm = (silent, refl)
  perform-off printf = (silent, refl)
  perform-off printp = (silent, refl)
  perform-off help = (_, refl)
  perform-off exit = (ended, refl)
  perform-off (bad line) = (_, refl)

  goes_on_off :
      (reply : Reply) {rest : Run (Console × S)}
      → rest ≡ ok (c, s)
      → elim reply [ ended ↦ ok (c, s) | silent ↦ rest | logged _ ↦ rest | printed _ ↦ rest ]
        ≡ ok (c, s)
  goes_on_off silent e = e
  goes_on_off ended e = refl
  goes_on_off (logged text) e = e
  goes_on_off (printed text) e = e

  -- If the logger takes no debug messages, a session on any input returns, and no line of it has changed
  -- the manager, the next identifier or the machine.
  pub session-off : (lines : List String) → session sys max_workers false lines c s ≡ ok (c, s)
  unfolding session execute
  session-off [] = refl
  session-off (line ∷ lines) =
      let (command, read, u) = parse-Returns line in
      let (reply, done) = perform-off command in
      rw (read, done) (goes_on_off reply (session-off lines))
