-- ===== src/Manager/Sound.antt =====
-- The workers of a manager together: each is well formed, no two own a descriptor in common, and a
-- source's owner is the one worker that has its list.
use str_manager.Prelude.{
  ℕ, ◌≡◌, ◌≢◌, refl, subst, ap, sym, ◌∙◌, String, Bool, true, false, Option, none, some, List, [],
  ◌∷◌, ◌++◌, arith, Bool-cases, Option-cases, inl, inr, if◌then◌else◌, get_elem?, set, length,
}
use str_manager.Prelude
use str_manager.Int.{ℤ}
use str_manager.System.{System}
use str_manager.Message.{Class, forward, rtcp, stats}
use str_manager.Table.{find?}
use str_manager.Table.Keys.{int_key}
use str_manager.Streams.Views.{list_at}
use str_manager.Ports.Sockets.{port_of}
use str_manager.Ports.Local.{is_some, owns, Local}
use str_manager.Ports.Branches.{StillOpen}
use str_manager.Worker.{Worker}
use str_manager.Worker.Valid.{IsValid}
use str_manager.Manager.{Ptr, WorkerTable}
use str_manager.Manager.Pool.{get_elem?-set, get_elem?-append, get_elem?-length}

abbrev pub is_rtcp : Class → Bool
is_rtcp forward = false
is_rtcp rtcp = true
is_rtcp stats = false

-- The worker at a pointer has a list with the identifier.
abbrev pub has_list : Option Worker → ℤ → Bool
has_list none id = false
has_list (some w) id = is_some (list_at w.streams id)

abbrev pub owns_fd : Option Worker → ℤ → Bool
owns_fd none fd = false
owns_fd (some w) fd = owns w.ports fd

module _ {S : Type 0} (sys : System S) (opened : S → ℤ → Bool) where
  pub record Sound (heap : List Worker) (owners : WorkerTable) (s : S) : Type 0 where
    pub valid : (p : Ptr) (w : Worker) → get_elem? heap p ≡ some w → IsValid sys opened w s
    pub plain : (p : Ptr) (w : Worker) → get_elem? heap p ≡ some w → is_rtcp w.class ≡ false
    pub apart :
        (p q : Ptr) (fd : ℤ)
        → Prelude.◌==◌ p q ≡ false
        → owns_fd (get_elem? heap p) fd ≡ true
        → owns_fd (get_elem? heap q) fd ≡ false
    pub owned :
        (src : ℤ) (p : Ptr) → find? src owners ≡ some p → has_list (get_elem? heap p) src ≡ true
    pub owner :
        (src : ℤ) (p : Ptr) → has_list (get_elem? heap p) src ≡ true → find? src owners ≡ some p

  -- A worker's descriptors are open.
  owns-opened :
      {w : Worker} {s : S}
      → IsValid sys opened w s
      → (fd : ℤ) → owns w.ports fd ≡ true
      → opened s fd ≡ true
  owns-opened {w} valid fd h = elim (Option-cases (port_of w.ports fd)) [
    | inl closed ↦ absurd (ground arith)
    | inr (port, e) ↦ valid.sockets.live port fd (valid.sockets.fd_of_port port fd e)
  ]

  -- A worker stays well formed as long as its own descriptors stay open.
  pub other-IsValid :
      {w : Worker} {s s' : S}
      → IsValid sys opened w s
      → ((fd : ℤ) → owns w.ports fd ≡ true → opened s fd ≡ true → opened s' fd ≡ true)
      → IsValid sys opened w s'
  other-IsValid {w} valid still = record {
    sockets = record {
      port_of_fd = valid.sockets.port_of_fd;
      fd_of_port = valid.sockets.fd_of_port;
      live = λ port fd e.
          still fd (ap is_some (valid.sockets.port_of_fd port fd e)) (valid.sockets.live port fd e);
      listened = valid.sockets.listened;
      unlistened = valid.sockets.unlistened;
    };
    routes = valid.routes;
    keyed = valid.keyed;
    shared = valid.shared;
  }

  module _ {heap : List Worker} {owners : WorkerTable} {s : S} (sound : Sound heap owners s) where
    -- The descriptors of all workers are open.
    owned_open : (q : Ptr) (fd : ℤ) → owns_fd (get_elem? heap q) fd ≡ true → opened s fd ≡ true
    owned_open q fd h = elim (Option-cases (get_elem? heap q)) [
      | inl dangling ↦ absurd (ground arith)
      | inr (v, at) ↦ owns-opened (sound.valid q v at) fd (ground arith)
    ]

    -- Time passes, and descriptors stay open.
    pub still-Sound : {s' : S} → StillOpen opened s s' → Sound heap owners s'
    still-Sound still = record {
      valid = λ p w there. other-IsValid (sound.valid p w there) (λ fd h. still fd);
      plain = sound.plain;
      apart = sound.apart;
      owned = sound.owned;
      owner = sound.owner;
    }

    -- A worker without sockets and lists joins the heap.
    pub append-Sound :
        (w : Worker)
        → IsValid sys opened w s
        → is_rtcp w.class ≡ false
        → ((fd : ℤ) → owns w.ports fd ≡ false)
        → ((id : ℤ) → is_some (list_at w.streams id) ≡ false)
        → Sound (heap ++ w ∷ []) owners s
    append-Sound w valid plain bare blank = record {
      valid = λ q v there. elim (Bool-cases (Prelude.◌==◌ q (length heap))) [
        | inl new ↦
            subst (λ x. IsValid sys opened x s) (ground (arith, get_elem?-append heap q w)) valid
        | inr old ↦ sound.valid q v (ground (arith, get_elem?-append heap q w))
      ];
      plain = λ q v there. ground (arith, get_elem?-append heap q w, sound.plain q v);
      apart = λ p q fd ne h. rw (get_elem?-append heap q w) (
          ground (
            arith,
            get_elem?-append heap p w,
            get_elem?-append heap q w,
            sound.apart p q fd,
            bare fd,
          ));
      owned = λ src p e.
          rw (get_elem?-append heap p w) (ground (arith, sound.owned src p, get_elem?-length heap));
      owner = λ src p h. ground (arith, get_elem?-append heap p w, sound.owner src p, blank src);
    }

    -- What a step of the worker at `p` does to the owners: it keeps those of others, and the lists of
    -- the worker are those it owns.
    pub record Handover (p : Ptr) (w' : Worker) (owners' : WorkerTable) : Type 0 where
      pub others_from :
          (j : ℤ) (q : Ptr)
          → Prelude.◌==◌ q p ≡ false
          → find? j owners' ≡ some q
          → find? j owners ≡ some q
      pub others_to :
          (j : ℤ) (q : Ptr)
          → Prelude.◌==◌ q p ≡ false
          → find? j owners ≡ some q
          → find? j owners' ≡ some q
      pub own_from : (j : ℤ) → find? j owners' ≡ some p → is_some (list_at w'.streams j) ≡ true
      pub own_to : (j : ℤ) → is_some (list_at w'.streams j) ≡ true → find? j owners' ≡ some p

    -- The worker at `p` takes a step on its own descriptors.
    pub write-Sound :
        {s' : S} {owners' : WorkerTable} (p : Ptr) (w w' : Worker)
        → get_elem? heap p ≡ some w
        → w'.class ≡ w.class
        → IsValid sys opened w' s'
        → Local opened w.ports w'.ports s s'
        → Handover p w' owners'
        → Sound (set heap p w') owners' s'
    write-Sound {s'} p w w' there class valid local hand = record {
      valid = λ q v at. elim (Bool-cases (Prelude.◌==◌ q p)) [
        | inl own ↦ subst (λ x. IsValid sys opened x s') (ground (arith, looked q)) valid
        | inr other ↦
            other-IsValid (sound.valid q v (ground (arith, looked q)))
              (λ fd h. local.kept fd (ground (arith, sound.apart q p fd other, looked q)))
      ];
      plain = λ q v at. ground (arith, looked q, sound.plain q v, sound.plain p w);
      apart = λ a b fd ne h. rw (looked b) (
          ground (
            arith,
            looked a,
            sound.apart a b fd ne,
            sound.apart p b fd,
            sound.apart a p fd,
            local.taken fd,
            owned_open a fd,
            owned_open b fd,
            Prelude.==_iff a p,
            Prelude.==_iff b p,
            Prelude.==_iff a b,
            Prelude.==_iff p b,
          ));
      owned = λ src q e. rw (looked q) (
          ground (
            arith,
            hand.others_from src q,
            hand.own_from src,
            sound.owned src q,
            Prelude.==_iff q p,
          ));
      owner = λ src q h. ground (
        arith,
        looked q,
        hand.others_to src q,
        hand.own_to src,
        sound.owner src q,
        Prelude.==_iff q p,
      );
    }
      where
        looked :
            (q : Ptr)
            → get_elem? (set heap p w') q ≡ (if Prelude.◌==◌ q p then some w' else get_elem? heap q)
        looked q = get_elem?-set heap p q w' there
