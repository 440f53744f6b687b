-- ===== src/Manager/Book/Quiet.antt =====
-- Steps of a worker that leave its sockets and the outline of its lists alone.
use str_manager.Prelude.{
  ℕ, ◌≡◌, refl, ap, sym, ◌∙◌, Bool, true, false, Option, none, some, List, arith, Option-cases, inl,
  inr, get_elem?, set, if◌then◌else◌,
}
use str_manager.Prelude
use str_manager.Int.{ℤ}
use str_manager.System.{System}
use str_manager.Table.{find?}
use str_manager.Table.Keys.{int_key}
use str_manager.Streams.Views.{list_at}
use str_manager.Ports.Sockets.{port_of}
use str_manager.Ports.Local.{still-Local, is_some}
use str_manager.Ports.Branches.{StillOpen}
use str_manager.Worker.{Worker}
use str_manager.Worker.Valid.{IsValid}
use str_manager.Manager.{Manager, Ptr, write}
use str_manager.Manager.Sound.{Sound, write-Sound}
use str_manager.Manager.Book.{book, summary, is_some-summary}
use str_manager.Manager.Book.Sources.{entry_in-set}

module _ {S : Type 0} (sys : System S) (opened : S → ℤ → Bool) where
  -- What a step of a worker leaves alone that is no call of the manager.
  pub record Quiet (w : Worker) (s : S) (r : Worker × S) : Type 0 where
    pub valid : IsValid sys opened r.0 r.1
    pub class : r.0.class ≡ w.class
    pub ports : (f : ℤ) → port_of r.0.ports f ≡ port_of w.ports f
    pub lists : (j : ℤ) → summary (list_at r.0.streams j) ≡ summary (list_at w.streams j)
    pub still : StillOpen opened s r.1

  -- Such a step keeps the workers sound and the book as it is.
  pub Quiet-Sound :
      (m : Manager) {s s' : S} (sound : Sound sys opened m.heap m.src_id_worker s) (p : Ptr)
      (w : Worker) {w' : Worker}
      → get_elem? m.heap p ≡ some w
      → Quiet w s (w', s')
      → Sound sys opened (set m.heap p w') m.src_id_worker s'
        × ((j : ℤ) → book (write m p w') j ≡ book m j)
  unfolding write
  Quiet-Sound m {s} {s'} sound p w {w'} there c = (
    write-Sound sys opened sound p w w' there c.class c.valid (still-Local c.still c.ports)
        (record {
          others_from = λ j q ne e. e;
          others_to = λ j q ne e. e;
          own_from = λ j e. ground (arith, listed j, sound.owned j p, there);
          own_to = λ j h. ground (arith, listed j, sound.owner j p, there);
        }),
    λ j. elim (Option-cases (find? j m.src_id_worker)) [
      | inl free ↦ ground arith
      | inr (r, known) ↦
          ground (arith, entry_in-set m.heap p w w' there r j, c.lists j, there, Prelude.==_iff r p)
    ],
  )
    where
      listed : (j : ℤ) → is_some (list_at w'.streams j) ≡ is_some (list_at w.streams j)
      listed j = sym (is_some-summary _) ∙ ap is_some (c.lists j) ∙ is_some-summary _
