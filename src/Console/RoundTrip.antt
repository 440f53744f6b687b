-- ===== src/Console/RoundTrip.antt =====
-- The commands as the help text spells them, against how `execute` reads a line.
use Prim.Native.String.{String}
use str_manager.Prelude.{◌≡◌, refl, true, false, arith}
use str_manager.Int.{ℤ}
use str_manager.Run.{ok}
use str_manager.Text.{◌+++◌, substr_from, count_spaces}
use str_manager.Text.Tokens.{
  count_spaces-join, after-find_space, after-find_last_space, up_to-find_space,
}
use str_manager.Text.Decimal.{show_int, atoi-show_int, is_spaceless, is_spaceless-show_int}
use str_manager.Console.Parse.{
  Command, empty, addsource, remsource, adddestination, remdestination, remip, printm, printf,
  printp, help, exit, bad, parse_remip, parse, parse_addsource, parse_remsource,
  parse_adddestination, parse_remdestination,
}

-- The line of a command, as the help text describes it.
abbrev pub spell : Command → String
spell empty = ""
spell (addsource type ip port) =
    "addsource " +++ show_int type +++ " " +++ ip +++ " " +++ show_int port
spell (remsource src_id) = "remsource " +++ show_int src_id
spell (adddestination src_id ip port) =
    "adddestination " +++ show_int src_id +++ " " +++ ip +++ " " +++ show_int port
spell (remdestination src_id dest_id) =
    "remdestination " +++ show_int src_id +++ " " +++ show_int dest_id
spell (remip text) = "remip " +++ text
spell printm = "printm"
spell printf = "printf"
spell printp = "printp"
spell help = "help"
spell exit = "exit"
spell (bad line) = line

-- A command that can be spelled: an address has no space, and there is no bad command.
abbrev pub IsSpelled : Command → Type 0
IsSpelled (addsource type ip port) = is_spaceless ip ≡ true
IsSpelled (adddestination src_id ip port) = is_spaceless ip ≡ true
IsSpelled (remip text) = is_spaceless text ≡ true
IsSpelled (bad line) = true ≡ false
IsSpelled _ = Unit

-- The text behind the command word.
cut_addsource : (t : String) → substr_from 10 ("addsource " +++ t) ≡ ok t
cut_addsource t = ground arith

cut_remsource : (t : String) → substr_from 10 ("remsource " +++ t) ≡ ok t
cut_remsource t = ground arith

cut_adddestination : (t : String) → substr_from 15 ("adddestination " +++ t) ≡ ok t
cut_adddestination t = ground arith

cut_remdestination : (t : String) → substr_from 15 ("remdestination " +++ t) ≡ ok t
cut_remdestination t = ground arith

cut_remip : (t : String) → substr_from 6 ("remip " +++ t) ≡ ok t
cut_remip t = ground arith

spaceless : (s : String) → is_spaceless s ≡ true → count_spaces s ≡ 0
spaceless s h = ground arith

-- Spaces of two and of three arguments.
two_arguments :
    (a b : String)
    → is_spaceless a ≡ true
    → is_spaceless b ≡ true
    → count_spaces (a +++ " " +++ b) ≡ 1
two_arguments a b h k = ground (arith, count_spaces-join a (" " +++ b))

three_arguments :
    (a b c : String)
    → is_spaceless a ≡ true
    → is_spaceless b ≡ true
    → is_spaceless c ≡ true
    → count_spaces (a +++ " " +++ b +++ " " +++ c) ≡ 2
three_arguments a b c h k l =
    ground (arith, count_spaces-join a (" " +++ b +++ " " +++ c), two_arguments b c k l)

module _ (type port : ℤ) (ip : String) (plain : is_spaceless ip ≡ true) where
  abbrev second : String
  second = ip +++ " " +++ show_int port

  abbrev arguments : String
  arguments = show_int type +++ " " +++ second

  three : count_spaces arguments ≡ 2
  three =
      three_arguments (show_int type) ip (show_int port) (is_spaceless-show_int type) plain
        (is_spaceless-show_int port)

  read_addsource : parse_addsource ("addsource " +++ arguments) ≡ ok (addsource type ip port)
  unfolding parse_addsource
  read_addsource =
      rw
        (
          cut_addsource arguments,
          after-find_space (show_int type) second (is_spaceless-show_int type),
          after-find_last_space ip (show_int port) (is_spaceless-show_int port),
          up_to-find_space (show_int type) second (is_spaceless-show_int type),
          up_to-find_space ip (show_int port) plain,
          atoi-show_int type,
          atoi-show_int port,
        )
        refl

  read_adddestination :
      parse_adddestination ("adddestination " +++ arguments) ≡ ok (adddestination type ip port)
  unfolding parse_adddestination
  read_adddestination =
      rw
        (
          cut_adddestination arguments,
          after-find_space (show_int type) second (is_spaceless-show_int type),
          after-find_space ip (show_int port) plain,
          up_to-find_space (show_int type) second (is_spaceless-show_int type),
          up_to-find_space ip (show_int port) plain,
          atoi-show_int type,
          atoi-show_int port,
        )
        refl

  parse_addsource_lem : parse ("addsource " +++ arguments) ≡ ok (addsource type ip port)
  unfolding parse
  parse_addsource_lem = rw three read_addsource

  parse_adddestination_lem :
      parse ("adddestination " +++ arguments) ≡ ok (adddestination type ip port)
  unfolding parse
  parse_adddestination_lem = rw three read_adddestination

parse_remsource_lem :
    (src_id : ℤ) → parse ("remsource " +++ show_int src_id) ≡ ok (remsource src_id)
unfolding parse parse_remsource
parse_remsource_lem src_id =
    rw
      (
        spaceless (show_int src_id) (is_spaceless-show_int src_id),
        cut_remsource (show_int src_id),
        atoi-show_int src_id,
      )
      refl

parse_remdestination_lem :
    (src_id dest_id : ℤ)
    → parse ("remdestination " +++ show_int src_id +++ " " +++ show_int dest_id)
      ≡ ok (remdestination src_id dest_id)
unfolding parse parse_remdestination
parse_remdestination_lem src_id dest_id =
    rw
      (
        two_arguments (show_int src_id) (show_int dest_id) (is_spaceless-show_int src_id)
            (is_spaceless-show_int dest_id),
        cut_remdestination (show_int src_id +++ " " +++ show_int dest_id),
        after-find_space (show_int src_id) (show_int dest_id) (is_spaceless-show_int src_id),
        up_to-find_space (show_int src_id) (show_int dest_id) (is_spaceless-show_int src_id),
        atoi-show_int src_id,
        atoi-show_int dest_id,
      )
      refl

parse_remip_lem :
    (text : String) → is_spaceless text ≡ true → parse ("remip " +++ text) ≡ ok (remip text)
unfolding parse parse_remip
parse_remip_lem text plain = rw (spaceless text plain, cut_remip text) refl

-- The line of a command, an address being a text without spaces, is read as this command.
pub parse-spell : (c : Command) → IsSpelled c → parse (spell c) ≡ ok c
unfolding parse
parse-spell empty h = refl
parse-spell (addsource type ip port) h = parse_addsource_lem type port ip h
parse-spell (remsource src_id) h = parse_remsource_lem src_id
parse-spell (adddestination src_id ip port) h = parse_adddestination_lem src_id port ip h
parse-spell (remdestination src_id dest_id) h = parse_remdestination_lem src_id dest_id
parse-spell (remip text) h = parse_remip_lem text h
parse-spell printm h = refl
parse-spell printf h = refl
parse-spell printp h = refl
parse-spell help h = refl
parse-spell exit h = refl
parse-spell (bad line) h = cc
