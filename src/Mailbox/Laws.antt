-- ===== src/Mailbox/Laws.antt =====
-- What the theorems ask of the message queues of Boost.Interprocess, by its documentation.
use str_manager.Prelude.{ℕ, ◌≤◌, ◌≡◌, ◌≢◌, Option, none, some, List, [], ◌∷◌, ◌++◌, length}
use str_manager.Message.{Message}
use str_manager.Mailbox.{returned, blocked, raised, MessageQueue}

-- `named q` is the queue that the name stands for, `contents h q` what the queue `h` holds, the oldest
-- message first, and `capacity h` how many messages it holds at most. A queue that loses its name goes
-- on for those who have it open. A call that does not return leaves the queues alone, unless it raises
-- an exception.
pub record MailLaws {H Q : Type 0} (mq : MessageQueue H Q) (named : Q → Option H)
    (contents : H → Q → List Message) (capacity : H → ℕ) : Type 0 where
  pub named-remove : (q : Q) → named (mq.remove q) ≡ none
  pub contents-remove : (q : Q) (h : H) → contents h (mq.remove q) ≡ contents h q
  -- The queue of the name, if there is one.
  pub open_old : (n : ℕ) (q : Q) (h : H) → named q ≡ some h → mq.open_or_create n q ≡ returned h q
  -- Otherwise a new and empty one of the size asked for.
  pub open_new :
      (n : ℕ) (q q' : Q) (h : H)
      → named q ≡ none
      → mq.open_or_create n q ≡ returned h q'
      → (named q' ≡ some h)
        × (contents h q' ≡ [])
        × (capacity h ≡ n)
        × ((k : H) → contents k q ≢ [] → contents k q' ≡ contents k q)
  -- Messages of one priority are kept in the order of sending.
  pub contents-send :
      (h : H) (message : Message) (u : Unit {0}) (q q' : Q)
      → mq.send h message q ≡ returned u q'
      → (contents h q' ≡ contents h q ++ message ∷ []) × (named q' ≡ named q)
  pub send_full :
      (h : H) (message : Message) (q q' : Q)
      → mq.send h message q ≡ blocked q'
      → (q' ≡ q) × (capacity h ≤ length (contents h q))
  pub contents-receive :
      (h : H) (message : Message) (q q' : Q)
      → mq.receive h q ≡ returned message q'
      → (contents h q ≡ message ∷ contents h q') × (named q' ≡ named q)
  pub receive_empty :
      (h : H) (q q' : Q) → mq.receive h q ≡ blocked q' → (q' ≡ q) × (contents h q ≡ [])

-- On these queues no call on an open queue raises an exception.
pub record Steady {H Q : Type 0} (mq : MessageQueue H Q) : Type 0 where
  pub sends : (h : H) (message : Message) (q q' : Q) → mq.send h message q ≢ raised q'
  pub receives : (h : H) (q q' : Q) → mq.receive h q ≢ raised q'
