-- ===== src/Ports/Local.antt =====
-- What a worker's sockets leave alone: the descriptors that it does not own.
use str_manager.Prelude.{◌≡◌, ap, ◌∙◌, sym, inl, inr, Bool, true, false, Option, none, some, arith}
use str_manager.Int.{ℤ, ==_iff}
use str_manager.System.{System, SystemLaws}
use str_manager.Ports.{Ports, add_socket, remove_socket}
use str_manager.Ports.Sockets.{fd_of, port_of}
use str_manager.Ports.Branches.{StillOpen, add_socket_cases, remove_socket_cases}
use str_manager.Ports.Invariant.{IsConsistent}

abbrev pub is_some : {A : Type 0} → Option A → Bool
is_some none = false
is_some (some _) = true

abbrev pub owns : Ports → ℤ → Bool
owns p fd = is_some (port_of p fd)

-- Descriptors that are open and not owned stay open, and what is owned afterwards was owned before
-- or not open.
pub record Local {S : Type 0} (opened : S → ℤ → Bool) (p p' : Ports) (s s' : S) : Type 0 where
  pub kept : (f : ℤ) → owns p f ≡ false → opened s f ≡ true → opened s' f ≡ true
  pub taken : (f : ℤ) → owns p' f ≡ true → opened s f ≡ true → owns p f ≡ true

pub still-Local :
    {S : Type 0} {opened : S → ℤ → Bool} {p p' : Ports} {s s' : S}
    → StillOpen opened s s'
    → ((f : ℤ) → port_of p' f ≡ port_of p f)
    → Local opened p p' s s'
still-Local still same = record {
  kept = λ f h. still f;
  taken = λ f h k. ap is_some (sym (same f)) ∙ h;
}

module _ {S : Type 0} (sys : System S) (opened : S → ℤ → Bool) (laws : SystemLaws sys opened)
    {p : Ports} {s : S} (port : ℤ) where
  pub add_socket-Local : let r = add_socket sys p port s in Local opened p r.1 s r.2
  add_socket-Local = elim (add_socket_cases sys opened laws p port s) [
    | inl o ↦ record {
      kept = λ f h k. rw o.state k;
      taken = λ f h k. ap is_some (sym (o.fds.port_of_same f)) ∙ h;
    }
    | inr (inl o) ↦ still-Local o.still o.fds.port_of_same
    | inr (inr o) ↦ record {
      kept = λ f h. o.fresh.others f;
      taken = λ f h k. ground (arith, o.joined.port_of_joined f, o.fresh.unused, ==_iff f o.fd);
    }
  ]

  pub remove_socket-Local :
      {fd : ℤ}
      → IsConsistent opened p s
      → fd_of p port ≡ some fd
      → let r = remove_socket sys p port s in Local opened p r.1 s r.2
  remove_socket-Local {fd} inv e = elim (remove_socket_cases sys opened laws p port fd s e) [
    | inl o ↦ record {
      kept = λ f h k. rw o.state k;
      taken = λ f h k. ap is_some (sym (o.fds.port_of_same f)) ∙ h;
    }
    | inr o ↦ record {
      kept = λ f h k.
          rw o.state
            (laws.opened-close s fd f ∙ ground (arith, inv.port_of_fd port fd e, ==_iff f fd));
      taken = λ f h k. ground (arith, o.parted.port_of_parted f);
    }
  ]
