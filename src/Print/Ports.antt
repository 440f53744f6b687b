-- ===== src/Print/Ports.antt =====
-- When the table of ports can be printed.
use Prim.Native.String.{String, []}
use str_manager.Prelude.{
  zero, suc, ◌≡◌, refl, ◌∙◌, Bool, true, false, ◌||◌, Bool-cases, inl, inr, [], ◌∷◌, length,
  if◌then◌else◌,
}
use str_manager.Int.{ℤ, pos, negsuc}
use str_manager.Run.{ok, fault, out_of_literal}
use str_manager.Text.{◌+++◌}
use str_manager.Text.Decimal.{show_nat, show_int}
use str_manager.Table
use str_manager.Table.{Table}
use str_manager.Ports.{IntTable}
use str_manager.Worker.{Worker}
use str_manager.Print.{newline_from, print_ports, print_port_fd_of}

-- What stands after each entry: a line break for worker 0, and nothing for worker 1.
abbrev pub separator : ℤ → String
separator (pos zero) = "\n"
separator (pos (suc n)) = ""
separator (negsuc n) = ""

-- The entries with the separator of the worker.
unfoldable pub entries : ℤ → IntTable → String
entries id [] = ""
entries id (e ∷ es) =
    show_int e.0 +++ " " +++ show_int e.1 +++ " in socketWoker " +++ separator id +++ entries id es

unfoldable pub page : Worker → String
unfolding entries
page w =
    "portFd size = "
    +++ show_nat (length w.ports.port_fd)
    +++ " in socketWoker "
    +++ show_int w.worker_id
    +++ "\n"
    +++ entries w.worker_id w.ports.port_fd

abbrev pub is_printable : ℤ → Bool
is_printable (pos zero) = true
is_printable (pos (suc zero)) = true
is_printable (pos (suc (suc n))) = false
is_printable (negsuc n) = false

newline_from_lem :
    (id : ℤ)
    → newline_from id ≡ (if is_printable id then ok (separator id) else fault out_of_literal)
unfolding newline_from
newline_from_lem (pos zero) = refl
newline_from_lem (pos (suc zero)) = refl
newline_from_lem (pos (suc (suc n))) = refl
newline_from_lem (negsuc n) = refl

print_ports-printable :
    (id : ℤ) (t : IntTable) → is_printable id ≡ true → print_ports id t ≡ ok (entries id t)
unfolding print_ports entries
print_ports-printable id [] h = refl
print_ports-printable id (e ∷ es) h =
    rw (newline_from_lem id, h, print_ports-printable id es h) refl

print_ports_lem :
    (id : ℤ) (t : IntTable)
    → print_ports id t
      ≡ (if Table.is_empty t || is_printable id then ok (entries id t) else fault out_of_literal)
unfolding print_ports Table.is_empty entries
print_ports_lem id [] = refl
print_ports_lem id (e ∷ es) = elim (Bool-cases (is_printable id)) [
  | inl fine ↦ print_ports-printable id (e ∷ es) fine ∙ rw fine refl
  | inr bad ↦ rw (newline_from_lem id, bad) refl
]

-- `Worker::printPortFd` prints the entries of the table if the worker has no port or its identifier is
-- 0 or 1; with a port and any other identifier it reads outside of a string literal.
pub print_port_fd_of_lem :
    (w : Worker)
    → print_port_fd_of w ≡ (
        if Table.is_empty w.ports.port_fd || is_printable w.worker_id
        then ok (page w)
        else fault out_of_literal)
unfolding print_port_fd_of page
print_port_fd_of_lem w =
    elim (Bool-cases (Table.is_empty w.ports.port_fd || is_printable w.worker_id)) [
      | inl fine ↦ rw (print_ports_lem w.worker_id w.ports.port_fd, fine) refl
      | inr bad ↦ rw (print_ports_lem w.worker_id w.ports.port_fd, bad) refl
    ]
