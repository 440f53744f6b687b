-- ===== src/Console.antt =====
-- The command line of examples/CL_strManager/src/main.cpp, which
-- examples/WS_strManager/src/main_ws.cpp has too: a line is read as a command, and a command is
-- performed on the manager. `atoi` reads numbers of any size here; a text outside of the range of an
-- `int` is not covered.
pub mod Parse
pub mod Lines
pub mod RoundTrip
pub mod Running
pub mod Session
pub mod Quiet
pub mod Web
pub mod Server
pub mod Serving
pub mod Listening
pub mod Logged
use Prim.Native.String.{String, []}
use str_manager.Prelude.{ℕ, ◌+◌, Bool, true, false, List, [], ◌∷◌, if◌then◌else◌}
use str_manager.Int.{ℤ, pos, inc}
use str_manager.Run.{Run, ok, ◌>>=◌}
use str_manager.Text.{◌+++◌}
use str_manager.Text.Decimal.{show_int}
use str_manager.System.{System}
use str_manager.Manager
use str_manager.Manager.{Manager}
use str_manager.Print
use Parse.{
  Command, empty, addsource, remsource, adddestination, remdestination, remip, printm, printf,
  printp, help, exit, bad, parse,
}

-- The globals `sm` and `flowId`.
pub record Console : Type 0 where
  pub manager : Manager
  pub flow_id : ℤ

-- `main` before its loop.
unfoldable pub start : Console
start = record { manager = Manager.new; flow_id = pos 100 }

-- What a line makes the program do besides: nothing, write to the log or to the standard output, or
-- end.
pub data Reply : Type 0 where
  silent ended : Reply
  logged printed : String → Reply

unfoldable pub help_text : String
help_text =
    "..:: AVAILABLE COMMANDS ::..\n"
    +++ "\t-addsource [worker type] [source IP] [destination Port] :: adds a flow as a source\n"
    +++ "\t-remsource [flowId] :: deletes a source\n"
    +++ "\t-adddestination [source flowId] [destination IP] [destination Port] :: adds a destination of a source\n"
    +++ "\t-remdestination [source flowId] [flowId] :: deletes a destination\n"
    +++ "\t-printm :: printManagement\n" +++ "\t-printf :: printForwarding\n"
    +++ "\t-printp :: printPortFd\n" +++ "\n\n"

module _ {S : Type 0} (sys : System S) (max_workers : ℕ) where
  -- The functions of main.cpp around the manager's methods.
  unfoldable pub add_source : ℤ → ℤ → String → ℤ → Console → S → Run (ℤ × Console × S)
  add_source type src_id ip port c s = do
    (r, m, s') ← Manager.add_source sys max_workers c.manager type src_id ip port s
    ok (r, record { manager = m; flow_id = inc c.flow_id }, s')

  unfoldable pub remove_source : ℤ → Console → S → Run (ℤ × Console × S)
  remove_source src_id c s = do
    (r, m, s') ← Manager.remove_source sys c.manager src_id s
    ok (r, record c { manager = m }, s')

  unfoldable pub add_destination : ℤ → ℤ → String → ℤ → Console → S → Run (ℤ × Console × S)
  add_destination src_id dest_id ip port c s = do
    (r, m) ← Manager.add_destination sys c.manager src_id dest_id ip port s
    ok (r, record { manager = m; flow_id = inc c.flow_id }, s)

  unfoldable pub remove_destination : ℤ → ℤ → Console → S → Run (ℤ × Console × S)
  remove_destination src_id dest_id c s = do
    (r, m) ← Manager.remove_destination c.manager src_id dest_id
    ok (r, record c { manager = m }, s)

  -- `LOG4CXX_DEBUG(logger, call)`: log4cxx evaluates the message only if debug messages are enabled.
  unfoldable pub log_code : Bool → Run (ℤ × Console × S) → Console → S → Run (Reply × Console × S)
  log_code debug call c s =
      if debug then (do (r, c', s') ← call; ok (logged (show_int r), c', s')) else ok (silent, c, s)

  unfoldable pub log_text : Bool → Run String → Console → S → Run (Reply × Console × S)
  log_text debug call c s =
      if debug then (do text ← call; ok (logged (text +++ "\n\n"), c, s)) else ok (silent, c, s)

  -- The second half of each branch of `execute`. `debug` says whether the logger takes debug messages.
  unfoldable pub perform : Bool → Command → Console → S → Run (Reply × Console × S)
  perform debug empty c s = ok (silent, c, s)
  perform debug (addsource type ip port) c s =
      log_code debug (add_source type c.flow_id ip port c s) c s
  perform debug (remsource src_id) c s = log_code debug (remove_source src_id c s) c s
  perform debug (adddestination src_id ip port) c s =
      log_code debug (add_destination src_id c.flow_id ip port c s) c s
  perform debug (remdestination src_id dest_id) c s =
      log_code debug (remove_destination src_id dest_id c s) c s
  perform debug (remip text) c s = ok (printed "\n", c, s)
  perform debug printm c s = log_text debug (Print.print_management sys c.manager) c s
  perform debug printf c s = log_text debug (Print.print_forwarding c.manager) c s
  perform debug printp c s = log_text debug (Print.print_port_fd c.manager) c s
  perform debug help c s = ok (printed help_text, c, s)
  perform debug exit c s = ok (ended, c, s)
  perform debug (bad line) c s =
      ok (printed ("Bad command: " +++ line +++ "\n\n" +++ help_text), c, s)

  unfoldable pub execute : Bool → String → Console → S → Run (Reply × Console × S)
  unfolding parse perform
  execute debug line c s = do command ← parse line; perform debug command c s

  -- The loop of `main` over the lines of the input.
  unfoldable pub session : Bool → List String → Console → S → Run (Console × S)
  unfolding execute
  session debug [] c s = ok (c, s)
  session debug (line ∷ lines) c s = do
    (reply, c', s') ← execute debug line c s
    elim reply [
      | ended ↦ ok (c', s')
      | silent ↦ session debug lines c' s'
      | logged _ ↦ session debug lines c' s'
      | printed _ ↦ session debug lines c' s'
    ]
