-- ===== src/Manager/Handler.antt =====
-- The loop of `Manager::messageHandler`. `receive` waits on an empty queue, which is a round that does
-- nothing here; `rounds` bounds their number.
use str_manager.Prelude.{
  ℕ, zero, suc, ◌≤◌, ◌≡◌, refl, ap, sym, subst, ◌∙◌, Bool, true, false, none, List, [], ◌∷◌, ◌&&◌,
  arith, if◌then◌else◌, length, Bool-cases, inl, inr,
}
use str_manager.Int.{ℤ, pos, ◌==◌}
use str_manager.Message.{Message}
use str_manager.Table.{find?}
use str_manager.Table.Keys.{int_key}
use str_manager.Table.Laws.{find?-erase}
use str_manager.Manager.{Manager, handle_message}

unfoldable pub message_handler : (rounds : ℕ) → Manager → Manager
message_handler zero m = m
message_handler (suc n) m =
    let rest = message_handler n (handle_message m) in if m.is_listening_messages then rest else m

-- A message in the queue by which a worker asks that its identifier be dropped.
abbrev pub asks : ℤ → List Message → Bool
asks id [] = false
asks id (message ∷ rest) =
    if message.type == pos 100 && id == message.from then true else asks id rest

-- The handler has read the whole queue.
pub record Served (m m' : Manager) : Type 0 where
  pub read : m'.queue ≡ []
  pub workers :
      (id : ℤ)
      → find? id m'.worker_id_worker
        ≡ (if asks id m.queue then none else find? id m.worker_id_worker)
  pub sources : m'.src_id_worker ≡ m.src_id_worker

-- What a round does with the first message.
record Received (m : Manager) (x : Message) (q : List Message) (m' : Manager) : Type 0 where
  pub queue : m'.queue ≡ q
  pub listening : m'.is_listening_messages ≡ m.is_listening_messages
  pub workers :
      (id : ℤ)
      → find? id m'.worker_id_worker
        ≡ (if x.type == pos 100 && id == x.from then none else find? id m.worker_id_worker)
  pub sources : m'.src_id_worker ≡ m.src_id_worker

handle_message-Received :
    (m : Manager) (x : Message) (q : List Message)
    → m.queue ≡ x ∷ q
    → Received m x q (handle_message m)
unfolding handle_message
handle_message-Received m x q e = elim (Bool-cases (x.type == pos 100)) [
  | inl drops ↦
      rw (e, handle_message)
        (rw drops (record {
          queue = refl;
          listening = refl;
          workers = λ id. rw drops (find?-erase x.from id m.worker_id_worker);
          sources = refl;
        }))
  | inr other ↦
      rw (e, handle_message)
        (rw other (record {
          queue = refl;
          listening = refl;
          workers = λ id. rw other refl;
          sources = refl;
        }))
]

pub handler_idle : (m : Manager) → m.queue ≡ [] → handle_message m ≡ m
unfolding handle_message
handler_idle m e = ground (arith, e)

pub goes_on :
    (n : ℕ) (m : Manager)
    → m.is_listening_messages ≡ true
    → message_handler (suc n) m ≡ message_handler n (handle_message m)
unfolding message_handler
goes_on n m listening = ground arith

read_all :
    (rounds : ℕ) (m : Manager) (q : List Message)
    → m.queue ≡ q
    → m.is_listening_messages ≡ true
    → length q ≤ rounds
    → Served m (message_handler rounds m)
unfolding message_handler
read_all zero m [] e listening enough = record {
  read = e;
  workers = λ id. rw e refl;
  sources = refl;
}
read_all zero m (x ∷ q) e listening enough = absurd (omega arith)
read_all (suc n) m [] e listening enough =
    subst (Served m) (sym (goes_on n m listening ∙ ap (message_handler n) (handler_idle m e)))
      (read_all n m [] e listening (omega arith))
read_all (suc n) m (x ∷ q) e listening enough =
    let first = handle_message-Received m x q e in
    let rest =
      read_all n (handle_message m) q first.queue (first.listening ∙ listening) (omega arith) in
    subst (Served m) (sym (goes_on n m listening)) (record {
      read = rest.read;
      workers = λ id. rest.workers id ∙ ground (arith, first.queue, first.workers id, e);
      sources = rest.sources ∙ first.sources;
    })

-- With as many rounds as there are messages, or more, a listening handler empties the queue. Each
-- identifier that a message of type 100 names then has no entry in the pool, and each other identifier has
-- its entry as before; the table of sources is as before too. This goes by identifiers: a worker that was
-- entered under such an identifier after the message had been sent is out as well.
pub message_handler-Served :
    (rounds : ℕ) (m : Manager)
    → m.is_listening_messages ≡ true
    → length m.queue ≤ rounds
    → Served m (message_handler rounds m)
message_handler-Served rounds m listening enough = read_all rounds m m.queue refl listening enough
