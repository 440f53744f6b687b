-- ===== src/Ports/Branches.antt =====
-- `init_socket`, `add_socket` and `remove_socket` by cases: what each branch returns and changes.
use str_manager.Prelude.{
  if◌then◌else◌, ◌≡◌, refl, ap, ◌∙◌, ◌⊎◌, inl, inr, Bool, true, false, some, arith, Bool-cases,
}
use str_manager.Int.{ℤ, pos, negsuc, ◌==◌, ==_iff, is_neg, truthy, inc, pred, to_u16}
use str_manager.System.{System, SystemLaws}
use str_manager.Table
use str_manager.Table.Keys.{int_key}
use str_manager.Table.Laws.{index-value}
use str_manager.Ports.{Ports, init_socket, add_socket, remove_socket}
use str_manager.Ports.Sockets.{
  fd_of, listeners, SameFds, SameListeners, Counts, Joined, Parted, counted-Counts, value-index,
  unregister-counted, register-touched,
}

-- What was open stays open.
abbrev pub StillOpen : {S : Type 0} → (S → ℤ → Bool) → S → S → Type 0
StillOpen opened s s' = (f : ℤ) → opened s f ≡ true → opened s' f ≡ true

-- A descriptor that was not open, and is now, beside those that were.
pub record Fresh {S : Type 0} (opened : S → ℤ → Bool) (s s' : S) (fd : ℤ) : Type 0 where
  pub natural : is_neg fd ≡ false
  pub unused : opened s fd ≡ false
  pub opened_now : opened s' fd ≡ true
  pub exact : (f : ℤ) → opened s' f ≡ (if f == fd then true else opened s f)
  pub others : StillOpen opened s s'

natural-ne : (fd : ℤ) → is_neg fd ≡ false → (fd == negsuc 0) ≡ false
natural-ne (pos n) h = refl
natural-ne (negsuc n) h = cc

module _ {S : Type 0} (sys : System S) (opened : S → ℤ → Bool) (laws : SystemLaws sys opened) where
  socket-StillOpen : (s : S) → StillOpen opened s (sys.socket s).1
  socket-StillOpen s f h = elim (Bool-cases (is_neg (sys.socket s).0)) [
    | inl error ↦ laws.opened-socket_error s f error ∙ h
    | inr made ↦ laws.opened-socket s f made ∙ rw h (ground arith)
  ]

  init_socket_cases :
      (port : ℤ) (s : S)
      → ((init_socket sys port s).0 ≡ negsuc 0) × StillOpen opened s (init_socket sys port s).1
        ⊎ Fresh opened s (init_socket sys port s).1 (init_socket sys port s).0
  unfolding init_socket
  init_socket_cases port s = elim (Bool-cases (is_neg (sys.socket s).0)) [
    | inl error ↦ rw error (inl (refl, socket-StillOpen s))
    | inr made ↦
        let s₁ = (sys.socket s).1 in
        let sock = (sys.socket s).0 in
        let p = sys.htons (to_u16 port) in
        let still : StillOpen opened s (sys.bind s₁ sock p).1 =
          λ f h. laws.opened-bind s₁ sock f p ∙ socket-StillOpen s f h in
        elim (Bool-cases (is_neg (sys.bind s₁ sock p).0)) [
          | inl taken ↦ rw (made, taken) (inl (refl, still))
          | inr bound ↦
              rw (made, bound)
                (inr (record {
                  natural = made;
                  unused = laws.socket_fresh s made;
                  opened_now =
                      laws.opened-bind s₁ sock sock p
                      ∙ laws.opened-socket s sock made
                      ∙ ground (arith, ==_iff sock sock);
                  exact = λ f. laws.opened-bind s₁ sock f p ∙ laws.opened-socket s f made;
                  others = still;
                }))
        ]
  ]

  -- The outcomes of `add_socket`: 0, -1 and 1.
  pub record Reused (p : Ports) (s : S) (port : ℤ) (r : ℤ × Ports × S) : Type 0 where
    pub code : r.0 ≡ pos 0
    pub listening : truthy (listeners p port) ≡ true
    pub fds : SameFds p r.1
    pub counts : Counts p r.1 port (inc (listeners p port))
    pub state : r.2 ≡ s

  pub record Failed (p : Ports) (s : S) (port : ℤ) (r : ℤ × Ports × S) : Type 0 where
    pub code : r.0 ≡ negsuc 0
    pub idle : truthy (listeners p port) ≡ false
    pub fds : SameFds p r.1
    pub counts : SameListeners p r.1
    pub still : StillOpen opened s r.2

  pub record Opened (p : Ports) (s : S) (port : ℤ) (r : ℤ × Ports × S) : Type 0 where
    pub code : r.0 ≡ pos 1
    pub idle : truthy (listeners p port) ≡ false
    pub fd : ℤ
    pub fresh : Fresh opened s r.2 fd
    pub joined : Joined p r.1 port fd

  pub add_socket_cases :
      (p : Ports) (port : ℤ) (s : S)
      → Reused p s port (add_socket sys p port s)
        ⊎ Failed p s port (add_socket sys p port s)
        ⊎ Opened p s port (add_socket sys p port s)
  unfolding add_socket
  add_socket_cases p port s =
      let read : (Table.index (pos 0) port p.port_listener).0 ≡ listeners p port =
        index-value (pos 0) port p.port_listener in
      rw read (elim (Bool-cases (truthy (listeners p port))) [
        | inl used ↦ rw used (
            inl (record {
              code = refl;
              listening = used;
              fds = record { fd_of_same = λ q. refl; port_of_same = λ f. refl };
              counts = counted-Counts p port (inc (listeners p port));
              state = refl;
            }))
        | inr idle ↦ rw idle (
            inr (elim (init_socket_cases port s) [
              | inl (failed, still) ↦ rw failed (
                  inl (record {
                    code = refl;
                    idle = idle;
                    fds = record { fd_of_same = λ q. refl; port_of_same = λ f. refl };
                    counts = value-index p port;
                    still = still;
                  }))
              | inr fresh ↦
                  let made : ((init_socket sys port s).0 == negsuc 0) ≡ false =
                    natural-ne (init_socket sys port s).0 fresh.natural in
                  rw made (
                    inr (record {
                      code = refl;
                      idle = idle;
                      fd = (init_socket sys port s).0;
                      fresh = fresh;
                      joined = register-touched p port (init_socket sys port s).0;
                    }))
            ]))
      ])

  -- The outcomes of `remove_socket`.
  pub record Kept (p : Ports) (s : S) (port : ℤ) (r : Bool × Ports × S) : Type 0 where
    pub code : r.0 ≡ false
    pub shared : (pred (listeners p port) == pos 0) ≡ false
    pub fds : SameFds p r.1
    pub counts : Counts p r.1 port (pred (listeners p port))
    pub state : r.2 ≡ s

  pub record Closed (p : Ports) (s : S) (port fd : ℤ) (r : Bool × Ports × S) : Type 0 where
    pub code : r.0 ≡ true
    pub last : (pred (listeners p port) == pos 0) ≡ true
    pub parted : Parted p r.1 port fd
    pub state : r.2 ≡ sys.close s fd

  pub remove_socket_cases :
      (p : Ports) (port fd : ℤ) (s : S)
      → fd_of p port ≡ some fd
      → Kept p s port (remove_socket sys p port s) ⊎ Closed p s port fd (remove_socket sys p port s)
  unfolding remove_socket
  remove_socket_cases p port fd s e =
      let read : (Table.index (pos 0) port p.port_listener).0 ≡ listeners p port =
        index-value (pos 0) port p.port_listener in
      rw read (elim (Bool-cases (pred (listeners p port) == pos 0)) [
        | inl last ↦
            let (same, parted) = unregister-counted p port (pred (listeners p port)) fd e in
            rw last (
              inr (record {
                code = refl;
                last = last;
                parted = parted;
                state = ap (sys.close s) same;
              }))
        | inr shared ↦ rw shared (
            inl (record {
              code = refl;
              shared = shared;
              fds = record { fd_of_same = λ q. refl; port_of_same = λ f. refl };
              counts = counted-Counts p port (pred (listeners p port));
              state = refl;
            }))
      ])
