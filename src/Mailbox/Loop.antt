-- ===== src/Mailbox/Loop.antt =====
-- The loop of the handler on the message queue, against the one on the manager's field `queue`.
use str_manager.Prelude.{
  ltb, subst, ℕ, zero, suc, ◌≡◌, refl, ap, sym, ◌∙◌, true, Option, List, [], ◌∷◌, arith, length,
  Bool-cases, inl, inr, if◌then◌else◌,
}
use str_manager.Int.{pos, ◌==◌}
use str_manager.Message.{Message}
use str_manager.Manager.{Manager, handle_message}
use str_manager.Manager.Handler
use str_manager.Manager.Handler.{handler_idle, goes_on}
use str_manager.Mailbox.{
  Outcome-cases, returned, blocked, MessageQueue, Place, waiting, going, handle, message_loop,
}
use str_manager.Mailbox.Laws.{MailLaws, Steady}

-- The manager with the messages of a queue in its field.
abbrev pub holding : Manager → List Message → Manager
holding m messages = record m { queue = messages }

pub handle-holding :
    (m : Manager) (x : Message) (messages : List Message)
    → handle_message (holding m (x ∷ messages)) ≡ holding (handle x m) messages
unfolding handle_message handle
handle-holding m x messages = elim (Bool-cases (x.type == pos 100)) [
  | inl drops ↦ rw drops refl
  | inr other ↦ rw other refl
]

pub handle-listening :
    (m : Manager) (x : Message) → (handle x m).is_listening_messages ≡ m.is_listening_messages
unfolding handle
handle-listening m x = elim (Bool-cases (x.type == pos 100)) [
  | inl drops ↦ rw drops refl
  | inr other ↦ rw other refl
]

handler_rests :
    (n : ℕ) (m : Manager)
    → m.queue ≡ []
    → m.is_listening_messages ≡ true
    → Handler.message_handler n m ≡ m
unfolding Handler.message_handler
handler_rests zero m e listening = refl
handler_rests (suc n) m e listening =
    goes_on n m listening
    ∙ ap (Handler.message_handler n) (handler_idle m e)
    ∙ handler_rests n m e listening

module _ {H Q : Type 0} (mq : MessageQueue H Q) (named : Q → Option H)
    (contents : H → Q → List Message) (capacity : H → ℕ)
    (laws : MailLaws mq named contents capacity) (steady : Steady mq) where
  -- Where the loop is after `n` rounds, and the state it has left.
  pub record Ended (n : ℕ) (h : H) (m : Manager) (q : Q) (r : Place × Manager × Q) : Type 0 where
    pub place : r.0 ≡ (if ltb (length (contents h q)) n then waiting else going)
    pub state : holding r.1 (contents h r.2) ≡ Handler.message_handler n (holding m (contents h q))

  pub took :
      (n : ℕ) (h : H) (m : Manager) (q q' : Q) (message : Message)
      → m.is_listening_messages ≡ true
      → mq.receive h q ≡ returned message q'
      → message_loop mq (suc n) h m q ≡ message_loop mq n h (handle message m) q'
  unfolding message_loop
  took n h m q q' message listening e = ground (arith, e)

  pub waits :
      (n : ℕ) (h : H) (m : Manager) (q q' : Q)
      → m.is_listening_messages ≡ true
      → mq.receive h q ≡ blocked q'
      → message_loop mq (suc n) h m q ≡ (waiting, m, q')
  unfolding message_loop
  waits n h m q q' listening e = ground (arith, e)

  -- With calls that raise no exception, the loop of a listening handler waits at an empty queue as soon
  -- as it has more rounds than the queue has messages, and reads on before. The manager and the contents
  -- of the queue are those that the loop on the manager's field gives in as many rounds.
  pub message_loop-Ended :
      (n : ℕ) (h : H) (m : Manager) (q : Q)
      → m.is_listening_messages ≡ true
      → Ended n h m q (message_loop mq n h m q)
  unfolding message_loop Handler.message_handler
  message_loop-Ended zero h m q listening = record { place = ground arith; state = refl }
  message_loop-Ended (suc n) h m q listening = elim (Outcome-cases (mq.receive h q)) [
    | inl (message, q', e) ↦
        let (front, same) = laws.contents-receive h message q q' e in
        let rest =
          message_loop-Ended n h (handle message m) q' (handle-listening m message ∙ listening) in
        subst (Ended (suc n) h m q) (sym (took n h m q q' message listening e)) (record {
          place = rest.place ∙ ground (arith, ap length front);
          state =
              rest.state
              ∙ sym (
                  goes_on n (holding m (contents h q)) listening
                  ∙ ap (Handler.message_handler n) (
                      ap (λ c. handle_message (holding m c)) front
                      ∙ handle-holding m message (contents h q')));
        })
    | inr (inl (q', e)) ↦
        let (same, bare) = laws.receive_empty h q q' e in
        subst (Ended (suc n) h m q) (sym (waits n h m q q' listening e)) (record {
          place = ground (arith, ap length bare);
          state =
              ap (λ c. holding m c) (ap (contents h) same ∙ bare)
              ∙ sym (
                  ap (λ c. Handler.message_handler (suc n) (holding m c)) bare
                  ∙ handler_rests (suc n) (holding m []) refl listening);
        })
    | inr (inr (q', e)) ↦ absurd (steady.receives h q q' e)
  ]
