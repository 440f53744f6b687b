-- ===== src/Mailbox/Schedule.antt =====
-- Sends of the workers and rounds of the handler, in any order, on an open message queue.
use str_manager.Prelude.{
  ℕ, zero, suc, ◌≤◌, ◌≡◌, ◌≢◌, refl, ap, sym, subst, ◌∙◌, inl, inr, Bool-cases, Bool, true, false,
  Option, none, some, List, [], ◌∷◌, ◌++◌, ltb, arith, length, length-append, if◌then◌else◌,
}
use str_manager.Message.{Message}
use str_manager.Manager.{Manager}
use str_manager.Manager.Handler
use str_manager.Mailbox.{
  Outcome-cases, Outcome, returned, blocked, raised, MessageQueue, Place, waiting, leave,
  send_message, message_loop, message_handler,
}
use str_manager.Mailbox.Laws.{MailLaws, Steady}
use str_manager.Mailbox.Loop.{holding, handle-listening, took, waits, message_loop-Ended}

pub data Event : Type 0 where
  sends : Message → Event
  round : Event

-- On the message queue: a send that waits ends the run.
unfoldable pub run :
    {H Q : Type 0} → MessageQueue H Q → List Event → H → Manager → Q → Outcome Manager Q
run mq [] h m q = returned m q
run mq (sends x ∷ events) h m q = elim (send_message mq x q) [
  | returned u q₁ ↦ run mq events h m q₁
  | blocked q₁ ↦ blocked q₁
  | raised q₁ ↦ raised q₁
]
run mq (round ∷ events) h m q =
    run mq events h (message_loop mq 1 h m q).1 (message_loop mq 1 h m q).2

-- On the manager's field.
abbrev pub play : List Event → Manager → Manager
play [] m = m
play (sends x ∷ events) m = play events (record m { queue = m.queue ++ x ∷ [] })
play (round ∷ events) m = play events (Handler.message_handler 1 m)

-- From `n` messages on, no message is sent while 100 wait.
abbrev pub fits : ℕ → List Event → Bool
fits n [] = true
fits n (sends x ∷ events) = if ltb n 100 then fits (suc n) events else false
fits zero (round ∷ events) = fits 0 events
fits (suc n) (round ∷ events) = fits n events

module _ {H Q : Type 0} (mq : MessageQueue H Q) (named : Q → Option H)
    (contents : H → Q → List Message) (capacity : H → ℕ)
    (laws : MailLaws mq named contents capacity) where
  -- What a send leaves of the queue that the name stands for.
  pub data Sent (x : Message) (h : H) (q : Q) : Outcome (Unit {0}) Q → Type 0 where
    entered :
        (q' : Q)
        → mq.send h x q ≡ returned tt q'
        → contents h q' ≡ contents h q ++ x ∷ []
        → named q' ≡ some h
        → Sent x h q (returned tt q')
    raises :
        (q' : Q)
        → mq.send h x q ≡ raised q'
        → named (mq.remove q') ≡ none
        → Sent x h q (returned tt (mq.remove q'))
    full : mq.send h x q ≡ blocked q → capacity h ≤ length (contents h q) → Sent x h q (blocked q)

  -- `sendMessage`, with a queue of the name, ends as the queue's own `send` ends on that queue. If `send`
  -- returns, so does it, and the message is the last of the queue, which keeps its name. If `send` raises
  -- an exception, it returns all the same, with the name taken from the queue that `send` has left. If
  -- `send` waits, it waits, and the queue is full and as it was.
  pub send_message-Sent :
      (x : Message) (h : H) (q : Q) → named q ≡ some h → Sent x h q (send_message mq x q)
  unfolding send_message
  send_message-Sent x h q there = elim (Outcome-cases (mq.send h x q)) [
    | inl (u, q', e) ↦
        let (last, same) = laws.contents-send h x u q q' e in
        rw (laws.open_old 100 q h there, e, send_message) (entered q' e last (same ∙ there))
    | inr (inl (q', e)) ↦
        let (same, bound) = laws.send_full h x q q' e in
        rw (laws.open_old 100 q h there, e, send_message, same) (full (e ∙ ap blocked same) bound)
    | inr (inr (q', e)) ↦
        rw (laws.open_old 100 q h there, e, send_message) (raises q' e (laws.named-remove q'))
  ]

  module _ (steady : Steady mq) where
    -- With room for it, a message is sent.
    send_message-fits :
        (x : Message) (h : H) (q : Q)
        → named q ≡ some h
        → capacity h ≡ 100
        → ltb (length (contents h q)) 100 ≡ true
        → (q' : Q) × (send_message mq x q ≡ returned tt q')
          × (contents h q' ≡ contents h q ++ x ∷ [])
          × (named q' ≡ some h)
    unfolding send_message
    send_message-fits x h q there size room = elim (Outcome-cases (mq.send h x q)) [
      | inl (u, q', e) ↦
          let (last, same) = laws.contents-send h x u q q' e in
          (q', ground (arith, laws.open_old 100 q h there, e), last, same ∙ there)
      | inr (inl (q', e)) ↦ absurd (ground (arith, laws.send_full h x q q' e))
      | inr (inr (q', e)) ↦ absurd (steady.sends h x q q' e)
    ]

    -- What a round leaves for the rest of the schedule.
    record Rounded (h : H) (m : Manager) (q : Q) (r : Place × Manager × Q) : Type 0 where
      pub there : named r.2 ≡ some h
      pub listening : r.1.is_listening_messages ≡ true
      pub fit :
          (events : List Event)
          → fits (length (contents h q)) (round ∷ events) ≡ true
          → fits (length (contents h r.2)) events ≡ true

    message_loop-Rounded :
        (h : H) (m : Manager) (q : Q)
        → named q ≡ some h
        → m.is_listening_messages ≡ true
        → Rounded h m q (message_loop mq 1 h m q)
    unfolding message_loop
    message_loop-Rounded h m q there listening = elim (Outcome-cases (mq.receive h q)) [
      | inl (x, q', e) ↦
          let (front, same) = laws.contents-receive h x q q' e in
          subst (Rounded h m q)
            (sym (took mq named contents capacity laws steady 0 h m q q' x listening e))
            (record {
              there = same ∙ there;
              listening = handle-listening m x ∙ listening;
              fit = λ events ok. ap (λ c. fits (length c) (round ∷ events)) (sym front) ∙ ok;
            })
      | inr (inl (q', e)) ↦
          let (same, bare) = laws.receive_empty h q q' e in
          subst (Rounded h m q)
            (sym (waits mq named contents capacity laws steady 0 h m q q' listening e))
            (record {
              there = ap named same ∙ there;
              listening = listening;
              fit = λ events ok.
                  ap (λ c. fits (length c) events) (ap (contents h) same ∙ bare)
                  ∙ ap (λ c. fits (length c) (round ∷ events)) (sym bare)
                  ∙ ok;
            })
      | inr (inr (q', e)) ↦ absurd (steady.receives h q q' e)
    ]

    -- The run returns, with the state of `play`.
    abbrev Played : List Event → H → Manager → Q → Type 0
    Played events h m q =
        (m' : Manager) × (q' : Q) × (run mq events h m q ≡ returned m' q')
        × (holding m' (contents h q') ≡ play events (holding m (contents h q)))

    sent_first :
        (x : Message) (events : List Event) (h : H) (m : Manager) (q q₁ : Q)
        → send_message mq x q ≡ returned tt q₁
        → contents h q₁ ≡ contents h q ++ x ∷ []
        → Played events h m q₁
        → Played (sends x ∷ events) h m q
    unfolding run
    sent_first x events h m q q₁ ran last (m', q', e, state) =
        (m', q', rw (ran, run) e, state ∙ ap (λ c. play events (holding m c)) last)

    -- From an open queue of the name on, with calls that raise no exception, every order of sends and
    -- rounds in which no message is sent while 100 wait runs to its end. The manager and the contents of
    -- the queue are then those that the same order gives on the manager's field.
    pub run-play :
        (events : List Event) (h : H) (m : Manager) (q : Q)
        → named q ≡ some h
        → capacity h ≡ 100
        → m.is_listening_messages ≡ true
        → fits (length (contents h q)) events ≡ true
        → (m' : Manager) × (q' : Q) × (run mq events h m q ≡ returned m' q')
          × (holding m' (contents h q') ≡ play events (holding m (contents h q)))
    unfolding run
    run-play [] h m q there size listening fit = (m, q, refl, refl)
    run-play (sends x ∷ events) h m q there size listening fit =
        elim (Bool-cases (ltb (length (contents h q)) 100)) [
          | inl room ↦
              let (q₁, ran, last, same) = send_message-fits x h q there size room in
              let longer : length (contents h q ++ x ∷ []) ≡ suc (length (contents h q)) =
                omega (arith, length-append (contents h q) (x ∷ [])) in
              sent_first x events h m q q₁ ran last (
                run-play events h m q₁ same size listening (
                  ap (λ c. fits (length c) events) last
                  ∙ ap (λ n. fits n events) longer
                  ∙ ground (arith, room)))
          | inr no_room ↦ absurd (ground (arith, no_room))
        ]
    run-play (round ∷ events) h m q there size listening fit =
        let r = message_loop-Rounded h m q there listening in
        let (m', q', e, state) =
          run-play events h (message_loop mq 1 h m q).1 (message_loop mq 1 h m q).2 r.there size
            r.listening (r.fit events fit) in
        (
          m',
          q',
          e,
          state
              ∙ ap (play events)
                  (message_loop-Ended mq named contents capacity laws steady 1 h m q
                    listening).state,
        )

    -- What `messageHandler` has done when it first waits.
    pub record Started (h : H) (m : Manager) (q : Q) (r : Place × Manager × Q) : Type 0 where
      pub place : r.0 ≡ waiting
      pub same : r.1 ≡ m
      pub there : named r.2 ≡ some h
      pub empty : contents h r.2 ≡ []
      pub size : capacity h ≡ 100
      pub unread : (k : H) → contents k q ≢ [] → contents k r.2 ≡ contents k q

    bare_waits :
        (n : ℕ) (h : H) (m : Manager) (q : Q)
        → m.is_listening_messages ≡ true
        → contents h q ≡ []
        → message_loop mq (suc n) h m q ≡ (waiting, m, q)
    bare_waits n h m q listening bare = elim (Outcome-cases (mq.receive h q)) [
      | inl (x, q', e) ↦ absurd (ground (arith, bare, laws.contents-receive h x q q' e))
      | inr (inl (q', e)) ↦
          waits mq named contents capacity laws steady n h m q q' listening e
          ∙ ap (λ c. (waiting, m, c)) (laws.receive_empty h q q' e).0
      | inr (inr (q', e)) ↦ absurd (steady.receives h q q' e)
    ]

    -- On queues whose open ones raise no exception, `messageHandler` of a listening manager takes the name
    -- from the queue that it finds. If it can open one, it first waits at a new and empty queue of 100
    -- messages, with the manager as before: a message that was sent before it started is still in the old
    -- queue, which it does not read.
    pub message_handler-Started :
        (n : ℕ) (h : H) (m : Manager) (q q₁ : Q)
        → m.is_listening_messages ≡ true
        → mq.open_or_create 100 (mq.remove q) ≡ returned h q₁
        → Started h m q (message_handler mq (suc n) m q)
    unfolding message_handler leave
    message_handler-Started n h m q q₁ listening e =
        let (there, empty, size, others) =
          laws.open_new 100 (mq.remove q) q₁ h (laws.named-remove q) e in
        let stays : message_handler mq (suc n) m q ≡ (waiting, m, q₁) =
          rw (e, message_handler) (ap (leave mq) (bare_waits n h m q₁ listening empty)) in
        subst (Started h m q) (sym stays) (record {
          place = refl;
          same = refl;
          there = there;
          empty = empty;
          size = size;
          unread = λ k some_left.
              others k (λ none_left. some_left (sym (laws.contents-remove q k) ∙ none_left))
              ∙ laws.contents-remove q k;
        })
