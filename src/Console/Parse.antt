-- ===== src/Console/Parse.antt =====
-- How `execute` of the examples takes a line apart: the tests of its branches and the first half of
-- each branch.
use Prim.Native.String.{String}
use str_manager.Prelude.{ℕ, Bool, true, false, ◌&&◌, if◌then◌else◌}
use str_manager.Prelude
use str_manager.Int.{ℤ}
use str_manager.Run.{Run, ok, ◌>>=◌}
use str_manager.Text.{
  same_text, take, substr_from, find_space, find_last_space, up_to, after, count_spaces,
}
use str_manager.Text.Decimal.{atoi}

pub data Command : Type 0 where
  empty : Command
  addsource : (type : ℤ) (ip : String) (port : ℤ) → Command
  remsource : (src_id : ℤ) → Command
  adddestination : (src_id : ℤ) (ip : String) (port : ℤ) → Command
  remdestination : (src_id dest_id : ℤ) → Command
  remip : String → Command
  printm printf printp help exit : Command
  bad : String → Command

-- `line.substr(0, n) == word`
abbrev pub starts : ℕ → String → String → Bool
starts n word line = same_text (take n line) word

abbrev pub has_spaces : ℕ → String → Bool
has_spaces n line = Prelude.◌==◌ (count_spaces line) n

unfoldable pub parse_addsource : String → Run Command
unfolding atoi
parse_addsource line = do
  line₁ ← substr_from 10 line
  let type = atoi (up_to (find_space line₁) line₁)
  line₂ ← after (find_space line₁) line₁
  let ip = up_to (find_space line₂) line₂
  port ← after (find_last_space line₂) line₂
  ok (addsource type ip (atoi port))

unfoldable pub parse_remsource : String → Run Command
parse_remsource line = do line₁ ← substr_from 10 line; ok (remsource (atoi line₁))

unfoldable pub parse_adddestination : String → Run Command
parse_adddestination line = do
  line₁ ← substr_from 15 line
  let flow = atoi (up_to (find_space line₁) line₁)
  line₂ ← after (find_space line₁) line₁
  let ip = up_to (find_space line₂) line₂
  port ← after (find_space line₂) line₂
  ok (adddestination flow ip (atoi port))

unfoldable pub parse_remdestination : String → Run Command
parse_remdestination line = do
  line₁ ← substr_from 15 line
  let flow = atoi (up_to (find_space line₁) line₁)
  flow₂ ← after (find_space line₁) line₁
  ok (remdestination flow (atoi flow₂))

unfoldable pub parse_remip : String → Run Command
parse_remip line = do line₁ ← substr_from 6 line; ok (remip line₁)

unfoldable pub parse : String → Run Command
parse line =
    if same_text line ""
    then ok empty
    else if starts 9 "addsource" line && has_spaces 3 line
    then parse_addsource line
    else if starts 9 "remsource" line && has_spaces 1 line
    then parse_remsource line
    else if starts 14 "adddestination" line && has_spaces 3 line
    then parse_adddestination line
    else if starts 14 "remdestination" line && has_spaces 2 line
    then parse_remdestination line
    else if starts 5 "remip" line && has_spaces 1 line
    then parse_remip line
    else if starts 6 "printm" line
    then ok printm
    else if starts 6 "printf" line
    then ok printf
    else if starts 6 "printp" line
    then ok printp
    else if starts 4 "help" line
    then ok help
    else if starts 4 "exit" line
    then ok exit
    else ok (bad line)
