-- ===== src/Console/Web.antt =====
-- The web service of examples/WS_strManager/src/main_ws.cpp: its handlers, over the functions that it
-- shares with the command line. The gSOAP runtime decodes a request into the handler's arguments. `raw`
-- is what the bytes of the pointer `ip` spell, which `ns__addDestination` passes on in place of the text.
use Prim.Native.String.{String}
use str_manager.Prelude.{ℕ, Bool, true, Option, none, some, ◌||◌, if◌then◌else◌}
use str_manager.Int.{ℤ, pos, ltb, is_neg, ◌==◌}
use str_manager.Run.{Run, ok, fault, dangling_pointer, ◌>>=◌}
use str_manager.Text.Decimal.{atoi}
use str_manager.System.{System}
use str_manager.Print
use str_manager.Console.{
  Console, Reply, silent, add_source, remove_source, add_destination, remove_destination, perform,
}
use str_manager.Console.Parse.{Command, help, parse}

pub data Request : Type 0 where
  command_sent : (line : String) → Request
  source_sent : (type src_id : ℤ) (ip : String) (port : ℤ) → Request
  source_removal : (src_id : ℤ) → Request
  destination_sent : (src_id dest_id : ℤ) (raw : String) (port : ℤ) → Request
  destination_removal : (src_id dest_id : ℤ) → Request
  management_asked forwarding_asked ports_asked : Request

pub data Response : Type 0 where
  done : Bool → Reply → Response
  code : ℤ → Response

module _ {S : Type 0} (sys : System S) (max_workers : ℕ) where
  -- `execute` as here: the text of `help` is not printed.
  unfoldable pub web_perform : Bool → Command → Console → S → Run (Reply × Console × S)
  web_perform debug help c s = ok (silent, c, s)
  web_perform debug command c s = perform sys max_workers debug command c s

  unfoldable pub coded : Run (ℤ × Console × S) → Run (Response × Console × S)
  coded call = do (r, c, s) ← call; ok (code r, c, s)

  -- The handler gives the runtime a pointer to the text of a temporary, which is gone when the runtime
  -- reads it.
  unfoldable pub printed_to : Run String → Console → S → Run (Response × Console × S)
  printed_to call c s = do text ← call; fault dangling_pointer

  unfoldable pub serve : Bool → Request → Console → S → Run (Response × Console × S)
  unfolding parse web_perform coded printed_to
  serve debug (command_sent line) c s = do
    command ← parse line
    (reply, c', s') ← web_perform debug command c s
    ok (done true reply, c', s')
  serve debug (source_sent type src_id ip port) c s =
      coded (add_source sys max_workers type src_id ip port c s)
  serve debug (source_removal src_id) c s = coded (remove_source sys max_workers src_id c s)
  serve debug (destination_sent src_id dest_id raw port) c s =
      coded (add_destination sys max_workers src_id dest_id raw port c s)
  serve debug (destination_removal src_id dest_id) c s =
      coded (remove_destination sys max_workers src_id dest_id c s)
  serve debug management_asked c s = printed_to (Print.print_management sys c.manager) c s
  serve debug forwarding_asked c s = printed_to (Print.print_forwarding c.manager) c s
  serve debug ports_asked c s = printed_to (Print.print_port_fd c.manager) c s

-- The port that `main` listens at, if its argument is one.
unfoldable pub listen_port : String → Option ℤ
unfolding atoi
listen_port text =
    let port = atoi text in
    if is_neg port || port == pos 0 || ltb (pos 65535) port then none else some port
