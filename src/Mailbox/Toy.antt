-- ===== src/Mailbox/Toy.antt =====
-- A small system of message queues that obeys the laws, for examples: queues are numbered upwards, and
-- all hold 100 messages.
use str_manager.Prelude.{
  ℕ, zero, suc, ◌≤◌, ◌≡◌, ◌≢◌, refl, ap, sym, subst, ◌∙◌, Bool, true, false, Option, none, some,
  List, [], ◌∷◌, ◌++◌, ltb, arith, Bool-cases, inl, inr, length, if◌then◌else◌,
}
use str_manager.Prelude
use str_manager.Message.{Message}
use str_manager.Mailbox.{Outcome, returned, blocked, raised, MessageQueue}
use str_manager.Mailbox.Laws.{MailLaws, Steady}

pub record Boxes : Type 0 where
  pub named : Option ℕ
  pub next : ℕ
  pub at : ℕ → List Message

-- `at` with another value at one place.
abbrev pub with_box : (ℕ → List Message) → ℕ → List Message → ℕ → List Message
with_box f h c k = if Prelude.◌==◌ k h then c else f k

abbrev pub contents : ℕ → Boxes → List Message
contents h q = q.at h

abbrev pub capacity : ℕ → ℕ
capacity h = 100

-- The guards: a new queue has 100 messages, and the next number stands for an empty queue.
abbrev create : ℕ → List Message → Boxes → Outcome ℕ Boxes
create n [] q =
    if Prelude.◌==◌ n 100
    then returned q.next (record { named = some q.next; next = suc q.next; at = q.at })
    else raised q
create n (x ∷ c) q = raised q

abbrev opened : Option ℕ → ℕ → Boxes → Outcome ℕ Boxes
opened (some h) n q = returned h q
opened none n q = create n (q.at q.next) q

abbrev taken : List Message → ℕ → Boxes → Outcome Message Boxes
taken [] h q = blocked q
taken (x ∷ c) h q = returned x (record q { at = with_box q.at h c })

abbrev sent : Bool → ℕ → Message → Boxes → Outcome (Unit {0}) Boxes
sent true h x q = returned tt (record q { at = with_box q.at h (q.at h ++ x ∷ []) })
sent false h x q = blocked q

abbrev pub toy : MessageQueue ℕ Boxes
toy = record {
  remove = λ q. record q { named = none };
  open_or_create = λ n q. opened q.named n q;
  send = λ h x q. sent (ltb (length (q.at h)) 100) h x q;
  receive = λ h q. taken (q.at h) h q;
}

-- How a call ended, read off its equation.
abbrev AtReturn : {A Q : Type 0} → (A → Q → Type 0) → Outcome A Q → Type 0
AtReturn P (returned a q) = P a q
AtReturn P (blocked q) = Unit {0}
AtReturn P (raised q) = Unit {0}

abbrev AtBlock : {A Q : Type 0} → (Q → Type 0) → Outcome A Q → Type 0
AtBlock P (returned a q) = Unit {0}
AtBlock P (blocked q) = P q
AtBlock P (raised q) = Unit {0}

abbrev Calm : {A Q : Type 0} → Outcome A Q → Type 0
Calm (returned a q) = Unit {0}
Calm (blocked q) = Unit {0}
Calm (raised q) = true ≡ false

own : (f : ℕ → List Message) (h : ℕ) (c : List Message) → with_box f h c h ≡ c
own f h c = ground arith

created_lem :
    (n : ℕ) (q : Boxes) (c : List Message)
    → q.at q.next ≡ c
    → AtReturn
        (λ h q'.
          (q'.named ≡ some h)
          × (q'.at h ≡ [])
          × (capacity h ≡ n)
          × ((k : ℕ) → q.at k ≢ [] → q'.at k ≡ q.at k))
        (create n c q)
created_lem n q [] e = elim (Bool-cases (Prelude.◌==◌ n 100)) [
  | inl size ↦ rw size (refl, e, ground (arith, size), λ k h. refl)
  | inr other ↦ rw other tt
]
created_lem n q (x ∷ c) e = tt

sent_lem :
    (b : Bool) (h : ℕ) (x : Message) (q : Boxes)
    → AtReturn (λ u q'. (q'.at h ≡ q.at h ++ x ∷ []) × (q'.named ≡ q.named)) (sent b h x q)
sent_lem true h x q = (own q.at h (q.at h ++ x ∷ []), refl)
sent_lem false h x q = tt

full_lem :
    (b : Bool) (h : ℕ) (x : Message) (q : Boxes)
    → ltb (length (q.at h)) 100 ≡ b
    → AtBlock (λ q'. (q' ≡ q) × (100 ≤ length (q.at h))) (sent b h x q)
full_lem true h x q e = tt
full_lem false h x q e = (refl, ground (arith, e))

taken_lem :
    (c : List Message) (h : ℕ) (q : Boxes)
    → q.at h ≡ c
    → AtReturn (λ x q'. (q.at h ≡ x ∷ q'.at h) × (q'.named ≡ q.named)) (taken c h q)
      × AtBlock (λ q'. (q' ≡ q) × (q.at h ≡ [])) (taken c h q)
taken_lem [] h q e = (tt, (refl, e))
taken_lem (x ∷ c) h q e = ((e ∙ ap (λ d. x ∷ d) (sym (own q.at h c)), refl), tt)

pub toy_laws : MailLaws toy (λ q. q.named) contents capacity
toy_laws = record {
  named-remove = λ q. refl;
  contents-remove = λ q h. refl;
  open_old = λ n q h e. ap (λ o. opened o n q) e;
  open_new = λ n q q' h e ran.
      subst (AtReturn _) (sym (ap (λ o. opened o n q) e) ∙ ran) (created_lem n q _ refl);
  contents-send = λ h x u q q' ran. subst (AtReturn _) ran (sent_lem _ h x q);
  send_full = λ h x q q' ran. subst (AtBlock _) ran (full_lem _ h x q refl);
  contents-receive = λ h x q q' ran. subst (AtReturn _) ran (taken_lem _ h q refl).0;
  receive_empty = λ h q q' ran. subst (AtBlock _) ran (taken_lem _ h q refl).1;
}

sent-Calm : (b : Bool) (h : ℕ) (x : Message) (q : Boxes) → Calm (sent b h x q)
sent-Calm true h x q = tt
sent-Calm false h x q = tt

taken-Calm : (c : List Message) (h : ℕ) (q : Boxes) → Calm (taken c h q)
taken-Calm [] h q = tt
taken-Calm (x ∷ c) h q = tt

pub toy_steady : Steady toy
toy_steady = record {
  sends = λ h x q q' e. absurd (ground (arith, subst Calm e (sent-Calm _ h x q)));
  receives = λ h q q' e. absurd (ground (arith, subst Calm e (taken-Calm _ h q)));
}
