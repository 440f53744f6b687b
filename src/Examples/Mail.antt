-- ===== src/Examples/Mail.antt =====
-- The theorems on the message queue, each applied to the small system of queues.
use str_manager.Prelude.{◌≡◌, refl, some, List, [], ◌∷◌}
use str_manager.Int.{pos}
use str_manager.Message.{no_job, nothing_to_do}
use str_manager.Manager.{Manager}
use str_manager.Mailbox.{returned, send_message, message_handler}
use str_manager.Mailbox.Loop.{holding}
use str_manager.Mailbox.Schedule.{
  Event, sends, round, run, play, Sent, send_message-Sent, run-play, Started,
  message_handler-Started,
}
use str_manager.Mailbox.Toy.{Boxes, with_box, contents, capacity, toy, toy_laws, toy_steady}
use str_manager.Examples.Managers.{managed}

-- A queue that the handler has opened, and one with a message from before.
abbrev ready : Boxes
ready = record { named = some 0; next = 1; at = λ h. [] }

abbrev earlier : Boxes
earlier = record ready { at = with_box (λ h. []) 0 (no_job (pos 0) ∷ []) }

abbrev restarted : Boxes
restarted = record earlier { named = some 1; next = 2 }

abbrev events : List Event
events = sends (nothing_to_do (pos 0)) ∷ sends (no_job (pos 0)) ∷ round ∷ round ∷ round ∷ []

send_message-Sent_example :
    Sent toy
      (λ q. q.named)
      contents
      capacity
      toy_laws
      (no_job (pos 0))
      0
      ready
      (send_message toy (no_job (pos 0)) ready)
send_message-Sent_example =
    send_message-Sent toy (λ q. q.named) contents capacity toy_laws (no_job (pos 0)) 0 ready refl

run-play_example :
    (m' : Manager) × (q' : Boxes) × (run toy events 0 managed ready ≡ returned m' q')
    × (holding m' (contents 0 q') ≡ play events (holding managed (contents 0 ready)))
run-play_example =
    run-play toy (λ q. q.named) contents capacity toy_laws toy_steady events 0 managed ready refl
      refl refl refl

message_handler-Started_example :
    Started toy
      (λ q. q.named)
      contents
      capacity
      toy_laws
      toy_steady
      1
      managed
      earlier
      (message_handler toy 1 managed earlier)
message_handler-Started_example =
    message_handler-Started toy (λ q. q.named) contents capacity toy_laws toy_steady 0 1 managed
      earlier restarted refl refl
