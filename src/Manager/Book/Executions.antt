-- ===== src/Manager/Book/Executions.antt =====
-- The executions of a manager and its workers' threads on one machine, in any order, for callers
-- that keep to the rules of `addSource`.
use str_manager.Prelude.{
  ℕ, ◌≡◌, ◌<◌, ◌⊎◌, refl, subst, sym, String, Bool, false, none, some, arith, inl, inr, get_elem?,
  if◌then◌else◌,
}
use str_manager.Int.{ℤ, pos, negsuc, ◌==◌}
use str_manager.Run.{ok, of_Returns}
use str_manager.System.{System, SystemLaws}
use str_manager.Message.{rtcp_worker_type, stats}
use str_manager.Table.{find?}
use str_manager.Table.Keys.{int_key}
use str_manager.Udp
use str_manager.Udp.{UdpStream, sock_addr_cmp}
use str_manager.StreamList.Destinations.{remove}
use str_manager.Ports.Sockets.{port_of}
use str_manager.Ports.Local.{is_some}
use str_manager.Ports.Branches.{StillOpen}
use str_manager.Worker.{Worker}
use str_manager.Worker.Lists.{extend}
use str_manager.Worker.Loop.{process}
use str_manager.Manager.{
  Manager, Ptr, new, write, handle_message, read_time_stamp, add_source, remove_source,
  add_destination, remove_destination,
}
use str_manager.Manager.Sound.{Sound, still-Sound}
use str_manager.Manager.Book.{book, enter, forget, adjust}
use str_manager.Manager.Book.Sources.{add_source-Entered}
use str_manager.Manager.Book.Removal.{remove_source-Left}
use str_manager.Manager.Book.Destinations.{add_destination-Adjusted, remove_destination-Adjusted}
use str_manager.Manager.Book.Packets.{process-Sound}
use str_manager.Manager.Book.Quiet.{Quiet-Sound}
use str_manager.Manager.Book.Threads.{generate_stats-Quiet, read_time_stamp-Sound}
use str_manager.Report.{Report, generate_stats}

module _ {S : Type 0} (sys : System S) (opened : S → ℤ → Bool) (max_workers : ℕ) where
  pub data Step : Manager → S → Manager → S → Type 0 where
    source_added :
        {m m' : Manager} {s s' : S} (type src_id : ℤ) (ip : String) (q : ℕ) {r : ℤ}
        → (type == rtcp_worker_type) ≡ false
        → (src_id == pos 0) ≡ false
        → find? src_id m.src_id_worker ≡ none
        → q < 0x1_0000
        → add_source sys max_workers m type src_id ip (pos q) s ≡ ok (r, m', s')
        → Step m s m' s'
    source_removed :
        {m m' : Manager} {s s' : S} (src_id : ℤ) {r : ℤ}
        → remove_source sys m src_id s ≡ ok (r, m', s')
        → Step m s m' s'
    destination_added :
        {m m' : Manager} {s : S} (src_id dest_id : ℤ) (ip : String) (port : ℤ) {r : ℤ}
        → add_destination sys m src_id dest_id ip port s ≡ ok (r, m')
        → Step m s m' s
    destination_removed :
        {m m' : Manager} {s : S} (src_id dest_id : ℤ) {r : ℤ}
        → remove_destination m src_id dest_id ≡ ok (r, m')
        → Step m s m' s
    message_handled : {m : Manager} {s : S} → Step m s (handle_message m) s
    packet_processed :
        {m : Manager} {s : S} (p : Ptr) (w : Worker) (fd port : ℤ)
        → get_elem? m.heap p ≡ some w
        → port_of w.ports fd ≡ some port
        → Step m s (write m p (process sys w.class w fd s).0) (process sys w.class w fd s).1
    stamp_read :
        {m m' : Manager} {s s' : S} (src_id : ℤ) {stamp : ℕ}
        → read_time_stamp sys m src_id s ≡ ok (stamp, m', s')
        → Step m s m' s'
    stats_reported :
        {m : Manager} {s s' : S} (p : Ptr) (w : Worker) {report : Report} {w' : Worker}
        → get_elem? m.heap p ≡ some w
        → w.class ≡ stats
        → generate_stats sys w s ≡ ok (report, w', s')
        → Step m s (write m p w') s'
    machine_ran : {m : Manager} {s s' : S} → StillOpen opened s s' → Step m s m s'

  -- The book is as before.
  abbrev Stays : Manager → Manager → Type 0
  Stays m m' = (j : ℤ) → book m' j ≡ book m j

  -- What each step promises of its result and of the book.
  abbrev pub Action : {m : Manager} {s : S} {m' : Manager} {s' : S} → Step m s m' s' → Type 0
  Action {m} {s} {m'} (source_added type src_id ip q {r} plain nonzero unknown range e) =
      ((r ≡ pos 0)
        × ((s₁ : S) × ((j : ℤ)
              → book m' j ≡ enter src_id (Udp.make sys s₁ src_id ip (pos q)) (book m) j)))
      ⊎ ((r ≡ negsuc 0) × Stays m m')
  Action {m} {s} {m'} (source_removed src_id {r} e) =
      (r ≡ (if is_some (find? src_id m.src_id_worker) then pos 0 else negsuc 0))
      × ((j : ℤ) → book m' j ≡ forget src_id (book m) j)
  Action {m} {s} {m'} (destination_added src_id dest_id ip port {r} e) =
      (r ≡ (if is_some (find? src_id m.src_id_worker) then pos 0 else negsuc 0))
      × ((j : ℤ) → book m' j ≡ adjust src_id (extend (Udp.make sys s dest_id ip port)) (book m) j)
  Action {m} {s} {m'} (destination_removed src_id dest_id {r} e) =
      (r ≡ (if is_some (find? src_id m.src_id_worker) then pos 0 else negsuc 0))
      × ((j : ℤ) → book m' j ≡ adjust src_id (remove dest_id) (book m) j)
  Action {m} {s} {m'} message_handled = Stays m m'
  Action {m} {s} {m'} (packet_processed p w fd port there registered) = Stays m m'
  Action {m} {s} {m'} (stamp_read src_id e) = Stays m m'
  Action {m} {s} {m'} (stats_reported p w there counts e) = Stays m m'
  Action {m} {s} {m'} (machine_ran still) = Stays m m'

  -- The executions of callers that add no source of RTCP's type, with the identifier 0 or one in use, or
  -- at a port of more than 16 bits.
  pub data Execution : Manager → S → Type 0 where
    started : (s : S) → Execution new s
    then_step : {m m' : Manager} {s s' : S} → Execution m s → Step m s m' s' → Execution m' s'

module _ {S : Type 0} (sys : System S) (opened : S → ℤ → Bool) (laws : SystemLaws sys opened)
    (max_workers : ℕ) where
  handled :
      (m : Manager)
      → ((handle_message m).heap ≡ m.heap) × ((handle_message m).src_id_worker ≡ m.src_id_worker)
  unfolding handle_message
  handled m = (ground arith, ground arith)

  -- If the workers are sound, which excludes RTCP workers, then so they are after every step. `addSource`,
  -- called with a worker type other than RTCP's, an identifier that is not 0 and not in use, and a port of
  -- 16 bits, enters its source in the book if it returns 0, and else returns -1 and leaves the book.
  -- `removeSource`, `addDestination` and `removeDestination` make their own change of the book, for their
  -- source and no other, and return 0 exactly if the source is known. The steps of the handler and of the
  -- threads leave the book as it is.
  pub Step-Action :
      {m : Manager} {s : S} {m' : Manager} {s' : S}
      → Sound sys opened m.heap m.src_id_worker s
      → (step : Step sys opened max_workers m s m' s')
      → Sound sys opened m'.heap m'.src_id_worker s' × Action sys opened max_workers step
  unfolding write
  Step-Action sound (source_added type src_id ip q plain nonzero unknown range e) =
      let o =
        of_Returns
          (add_source-Entered sys opened laws max_workers sound type src_id ip q plain nonzero
            unknown range)
          e in
      (
        o.sound,
        elim o.code [
          | inl yea ↦ inl (yea, (o.made_in, λ j. ground (arith, o.books j, yea)))
          | inr nay ↦ inr (nay, λ j. ground (arith, o.books j, nay))
        ],
      )
  Step-Action {m} sound (source_removed src_id e) =
      let o = of_Returns (remove_source-Left sys opened laws m sound src_id) e in
      (o.sound, (o.code, o.books))
  Step-Action {m} {s} sound (destination_added src_id dest_id ip port e) =
      let o = of_Returns (add_destination-Adjusted sys opened m sound src_id dest_id ip port) e in
      (o.sound, (o.code, o.books))
  Step-Action {m} sound (destination_removed src_id dest_id e) =
      let o = of_Returns (remove_destination-Adjusted sys opened m sound src_id dest_id) e in
      (o.sound, (o.code, o.books))
  Step-Action {m} {s} sound message_handled =
      let (heap, owners) = handled m in
      (
        subst (λ h. Sound sys opened h (handle_message m).src_id_worker s) (sym heap)
            (subst (λ t. Sound sys opened m.heap t s) (sym owners) sound),
        λ j. ground (arith, heap, owners),
      )
  Step-Action {m} sound (packet_processed p w fd port there registered) =
      let (sound', books) = process-Sound sys opened laws m sound p w fd port there registered in
      (sound', books)
  Step-Action {m} sound (stamp_read src_id e) =
      let (sound', books) = read_time_stamp-Sound sys opened laws m sound src_id e in
      (sound', books)
  Step-Action {m} {s} sound (stats_reported p w there counts e) =
      let (sound', books) =
        Quiet-Sound sys opened m sound p w there
          (generate_stats-Quiet sys opened laws w s (sound.valid p w there) e) in
      (sound', books)
  Step-Action sound (machine_ran still) = (still-Sound sys opened sound still, λ j. refl)

  new-Sound : (s : S) → Sound sys opened new.heap new.src_id_worker s
  unfolding new find?
  new-Sound s = record {
    valid = λ p w there. cc;
    plain = λ p w there. cc;
    apart = λ p q fd ne h. refl;
    owned = λ src p e. cc;
    owner = λ src p h. cc;
  }

  -- In every execution in which no source is added of RTCP's type, with the identifier 0 or one in use, or
  -- at a port of more than 16 bits, the workers are sound: none is an RTCP worker, each is well formed, no
  -- two own a descriptor in common, and the sources that the manager knows are those that its workers
  -- have.
  pub Execution-Sound :
      {m : Manager} {s : S}
      → Execution sys opened max_workers m s
      → Sound sys opened m.heap m.src_id_worker s
  Execution-Sound (started s) = new-Sound s
  Execution-Sound (then_step before step) = (Step-Action (Execution-Sound before) step).0
