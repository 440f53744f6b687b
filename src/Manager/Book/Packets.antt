-- ===== src/Manager/Book/Packets.antt =====
-- What the thread of a worker does with a packet, against the book of sources.
use str_manager.Prelude.{
  ℕ, ◌≡◌, refl, ap, sym, ◌∙◌, Bool, true, false, Option, none, some, List, arith, Option-cases,
  Bool-cases, inl, inr, get_elem?, set, if◌then◌else◌,
}
use str_manager.Prelude
use str_manager.Int.{ℤ, pos, ==_iff, to_u32, to_s32}
use str_manager.System.{System, SystemLaws}
use str_manager.Message.{Class, forward, rtcp, stats}
use str_manager.Table.{find?}
use str_manager.Table.Keys.{int_key}
use str_manager.Table.Laws.{index-present}
use str_manager.StreamList.{StreamList, Rates, update_time_stamp}
use str_manager.StreamList.Stats.{update_input_bytes}
use str_manager.Streams.{store}
use str_manager.Streams.Views.{list_at}
use str_manager.Streams.Store.{store-lists}
use str_manager.Ports.Sockets.{port_of}
use str_manager.Ports.Branches.{StillOpen}
use str_manager.Worker.{Worker}
use str_manager.Worker.Valid.{IsValid}
use str_manager.Worker.Loop.{receiver, forward_process, stats_process, process, count_packet, rated}
use str_manager.Worker.Loop.Packets.{
  Received, receiver-Received, stored-IsValid, send_to_all-StillOpen,
}
use str_manager.Manager.{Manager, Ptr, write}
use str_manager.Manager.Sound.{Sound, other-IsValid}
use str_manager.Manager.Book.{book, summary}
use str_manager.Manager.Book.Quiet.{Quiet, Quiet-Sound}

rated_list :
    (l : Option StreamList) {b : StreamList} {r : Rates} → rated l ≡ some (b, r) → l ≡ some b
rated_list none e = cc
rated_list (some l) e = ground arith

module _ {S : Type 0} (sys : System S) (opened : S → ℤ → Bool) (laws : SystemLaws sys opened) where
  module _ {w : Worker} {s : S} (valid : IsValid sys opened w s) (fd port : ℤ)
      (registered : port_of w.ports fd ≡ some port) where
    abbrev s₁ : S
    s₁ = (sys.recvfrom s fd).1

    abbrev got : (ℤ × Option StreamList) × Worker
    got = receiver sys w fd (sys.recvfrom s fd).0.1

    received : Received sys opened laws valid fd port registered got
    received = receiver-Received sys opened laws valid fd port registered

    still₁ : StillOpen opened s s₁
    still₁ f h = laws.opened-recvfrom s fd f ∙ h

    got_ports : (f : ℤ) → port_of got.1.ports f ≡ port_of w.ports f
    unfolding receiver
    got_ports f = ap (λ t. find? f t.1) (index-present (pos 0) fd w.ports.fd_port registered)

    got_class : got.1.class ≡ w.class
    unfolding receiver
    got_class = refl

    empty-Quiet : Quiet sys opened w s (w, s₁)
    empty-Quiet = record {
      valid = other-IsValid sys opened valid (λ f h. still₁ f);
      class = refl;
      ports = λ f. refl;
      lists = λ j. refl;
      still = still₁;
    }

    unknown-Quiet : Quiet sys opened w s (got.1, s₁)
    unknown-Quiet = record {
      valid = received.valid';
      class = got_class;
      ports = got_ports;
      lists = λ j. ap summary (received.same.lists j);
      still = still₁;
    }

    -- The list of the sender is written back with its source and destinations as they were.
    stored-Quiet :
        (n : ℤ) (b b' : StreamList) {s' : S}
        → got.0.1 ≡ some b
        → b'.source ≡ b.source
        → b'.destinations ≡ b.destinations
        → StillOpen opened s₁ s'
        → Quiet sys opened w s
            (record got.1 { input_bytes = n; streams = store got.1.streams got.0.0 b' }, s')
    stored-Quiet n b b' known source destinations still = record {
      valid = stored-IsValid sys received.valid' got.0.0 n b b' there source still;
      class = got_class;
      ports = got_ports;
      lists = λ j.
          ap summary (store-lists got.1.streams got.0.0 b' j)
          ∙ ground (arith, received.same.lists j, there, source, destinations, ==_iff j got.0.0);
      still = λ f h. still f (still₁ f h);
    }
      where
        there : list_at got.1.streams got.0.0 ≡ some b
        there =
            received.same.lists got.0.0
            ∙ ap (list_at w.streams) received.id
            ∙ sym received.list
            ∙ known

    forward-Quiet : Quiet sys opened w s (forward_process sys w fd s)
    unfolding forward_process update_time_stamp
    forward-Quiet = elim (Bool-cases (Prelude.◌==◌ (to_u32 (sys.recvfrom s fd).0.0) 0)) [
      | inl nothing ↦ rw nothing empty-Quiet
      | inr some_bytes ↦ elim (Option-cases got.0.1) [
        | inl unknown ↦ rw (some_bytes, unknown) unknown-Quiet
        | inr (b, known) ↦
            rw (some_bytes, known)
              (stored-Quiet _ b (update_time_stamp sys b s₁).0 known refl refl (λ f h.
                send_to_all-StillOpen sys opened laws fd _ b.destinations (sys.time s₁).1 f
                  (laws.opened-time s₁ f ∙ h)))
      ]
    ]

    stats-Quiet : Quiet sys opened w s (stats_process sys w fd s)
    unfolding stats_process count_packet
    stats-Quiet = elim (Bool-cases (Prelude.◌==◌ (to_u32 (sys.recvfrom s fd).0.0) 0)) [
      | inl nothing ↦ rw nothing empty-Quiet
      | inr some_bytes ↦ elim (Option-cases (rated got.0.1)) [
        | inl unknown ↦ rw (some_bytes, unknown) unknown-Quiet
        | inr ((b, r), known) ↦
            rw (some_bytes, known)
              (stored-Quiet _ b
                (record b {
                  rates = some (update_input_bytes r (to_s32 (to_u32 (sys.recvfrom s fd).0.0)));
                })
                (rated_list got.0.1 known) refl refl
                (send_to_all-StillOpen sys opened laws fd _ b.destinations s₁))
      ]
    ]

    process_by-Quiet : (c : Class) → Quiet sys opened w s (process sys c w fd s)
    unfolding process
    process_by-Quiet forward = forward-Quiet
    process_by-Quiet rtcp = forward-Quiet
    process_by-Quiet stats = stats-Quiet

  -- A packet at a worker's descriptor leaves the workers sound and the book as it is.
  pub process-Sound :
      (m : Manager) {s : S} (sound : Sound sys opened m.heap m.src_id_worker s) (p : Ptr)
      (w : Worker) (fd port : ℤ)
      → get_elem? m.heap p ≡ some w
      → port_of w.ports fd ≡ some port
      → let r = process sys w.class w fd s in
        Sound sys opened (set m.heap p r.0) m.src_id_worker r.1
        × ((j : ℤ) → book (write m p r.0) j ≡ book m j)
  process-Sound m {s} sound p w fd port there registered =
      Quiet-Sound sys opened m sound p w there
        (process_by-Quiet (sound.valid p w there) fd port registered w.class)
