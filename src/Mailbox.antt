-- ===== src/Mailbox.antt =====
-- `Worker::sendMessage` and the whole of `Manager::messageHandler`: the message queue by which workers
-- talk to the manager. The queue is Boost.Interprocess's, a parameter: `Q` is the state of the system's
-- named queues, `H` an open queue. Other modules see the queue as a list, the manager's field `queue`.
pub mod Laws
pub mod Loop
pub mod Schedule
pub mod Toy
use str_manager.Prelude.{ℕ, zero, suc, ◌≡◌, refl, ◌⊎◌, inl, inr, Bool, List, [], ◌∷◌, if◌then◌else◌}
use str_manager.Int.{ℤ, pos, ◌==◌}
use str_manager.Message.{Message}
use str_manager.Table
use str_manager.Table.Keys.{int_key}
use str_manager.Manager.{Manager}

-- How a call ends: with a result, by waiting, or with an `interprocess_exception`.
pub data Outcome (A Q : Type 0) : Type 0 where
  returned : A → Q → Outcome A Q
  blocked : Q → Outcome A Q
  raised : Q → Outcome A Q

pub Outcome-cases :
    {A Q : Type 0} (o : Outcome A Q)
    → ((a : A) × (q : Q) × (o ≡ returned a q))
      ⊎ (((q : Q) × (o ≡ blocked q)) ⊎ ((q : Q) × (o ≡ raised q)))
Outcome-cases (returned a q) = inl (a, q, refl)
Outcome-cases (blocked q) = inr (inl (q, refl))
Outcome-cases (raised q) = inr (inr (q, refl))

-- The calls for the name "message_queue". The first argument of `open_or_create` is the number of
-- messages that a new queue holds; all messages are sent with priority 0.
pub record MessageQueue (H Q : Type 0) : Type 0 where
  pub remove : Q → Q
  pub open_or_create : ℕ → Q → Outcome H Q
  pub send : H → Message → Q → Outcome (Unit {0}) Q
  pub receive : H → Q → Outcome Message Q

-- Where the handler's thread is after some rounds of its loop.
pub data Place : Type 0 where
  waiting failed stopped going : Place

-- What the loop does with a message.
unfoldable pub handle : Message → Manager → Manager
handle message m =
    if message.type == pos 100
    then record m { worker_id_worker = Table.erase message.from m.worker_id_worker }
    else m

module _ {H Q : Type 0} (mq : MessageQueue H Q) where
  -- `Worker::sendMessage`: an exception is caught, and the name of the queue removed.
  unfoldable pub send_message : Message → Q → Outcome (Unit {0}) Q
  send_message message q = elim (mq.open_or_create 100 q) [
    | returned h q₁ ↦ elim (mq.send h message q₁) [
      | returned u q₂ ↦ returned tt q₂
      | blocked q₂ ↦ blocked q₂
      | raised q₂ ↦ returned tt (mq.remove q₂)
    ]
    | blocked q₁ ↦ blocked q₁
    | raised q₁ ↦ returned tt (mq.remove q₁)
  ]

  -- The loop of `messageHandler`, for a number of rounds.
  unfoldable pub message_loop : ℕ → H → Manager → Q → Place × Manager × Q
  message_loop zero h m q = (going, m, q)
  message_loop (suc n) h m q =
      if m.is_listening_messages
      then elim (mq.receive h q) [
        | returned message q₁ ↦ message_loop n h (handle message m) q₁
        | blocked q₁ ↦ (waiting, m, q₁)
        | raised q₁ ↦ (failed, m, q₁)
      ]
      else (stopped, m, q)

  -- What follows the loop, whether it is left by its condition or by an exception.
  unfoldable pub leave : Place × Manager × Q → Place × Manager × Q
  leave (waiting, m, q) = (waiting, m, q)
  leave (going, m, q) = (going, m, q)
  leave (stopped, m, q) = (stopped, m, mq.remove q)
  leave (failed, m, q) = (failed, m, mq.remove q)

  unfoldable pub message_handler : ℕ → Manager → Q → Place × Manager × Q
  message_handler rounds m q = elim (mq.open_or_create 100 (mq.remove q)) [
    | returned h q₁ ↦ leave (message_loop rounds h m q₁)
    | blocked q₁ ↦ (waiting, m, q₁)
    | raised q₁ ↦ leave (failed, m, q₁)
  ]
