-- ===== src/Manager/Book/Accept.antt =====
-- What a worker that is no RTCP worker does with a new source, whatever its class.
use str_manager.Prelude.{
  ℕ, ◌≡◌, ◌<◌, refl, ap, ◌∙◌, String, Bool, true, false, none, [], arith, if◌then◌else◌,
}
use str_manager.Int.{ℤ, pos, ◌==◌}
use str_manager.Run.{Returns}
use str_manager.System.{System, SystemLaws}
use str_manager.Message.{Class, forward, rtcp, stats}
use str_manager.Udp
use str_manager.StreamList
use str_manager.StreamList.{StreamList}
use str_manager.StreamList.Stats
use str_manager.Streams.Views.{list_at}
use str_manager.Ports.Local.{Local}
use str_manager.Worker
use str_manager.Worker.{Worker, add_source_with}
use str_manager.Worker.Valid.{IsValid}
use str_manager.Worker.Sources.{add_source_with-IsValid, Outcome}
use str_manager.Worker.Local.{add_source_with-Local}
use str_manager.Manager.Dispatch.{add_source_of, add_source_by, stats_add_source}
use str_manager.Manager.Sound.{is_rtcp, other-IsValid}
use str_manager.Manager.Book.{summary, enter}

module _ {S : Type 0} (sys : System S) (opened : S → ℤ → Bool) (laws : SystemLaws sys opened)
    (src_id : ℤ) (ip : String) (q : ℕ) where
  -- An accepted source has its entry, and all other lists are as before.
  pub record Accepted (w : Worker) (s : S) (r : Bool × Worker × S) : Type 0 where
    pub valid : IsValid sys opened r.1 r.2
    pub local : Local opened w.ports r.1.ports s r.2
    pub made_in : S
    pub lists :
        (j : ℤ)
        → summary (list_at r.1.streams j) ≡ (
            if r.0
            then enter src_id
                (Udp.make sys made_in src_id ip (pos q))
                (λ i. summary (list_at w.streams i))
                j
            else summary (list_at w.streams j))

  Outcome-lists :
      {w : Worker} {s : S} (fresh : StreamList)
      → fresh.destinations ≡ []
      → (valid : IsValid sys opened w s) (b : Bool) (w' : Worker)
      → Outcome sys opened laws valid src_id ip q fresh b w'
      → (j : ℤ)
      → summary (list_at w'.streams j) ≡ (
          if b
          then enter src_id
              (Udp.make sys s src_id ip (pos q))
              (λ i. summary (list_at w.streams i))
              j
          else summary (list_at w.streams j))
  Outcome-lists fresh blank valid true w' linked j = ground (arith, linked.lists j, blank)
  Outcome-lists fresh blank valid false w' same j = ap summary (same.lists j)

  -- The list that a class makes has no destinations.
  with_list :
      {w : Worker} {s : S} (fresh : StreamList)
      → fresh.destinations ≡ []
      → IsValid sys opened w s
      → (src_id == pos 0) ≡ false
      → list_at w.streams src_id ≡ none
      → q < 0x1_0000
      → Returns (add_source_with sys w src_id ip (pos q) fresh s) (Accepted w s)
  with_list {w} {s} fresh blank valid nonzero absent range =
      let (r, ran, (valid', outcome)) =
        add_source_with-IsValid sys opened laws valid src_id ip q fresh nonzero absent range in
      (
        r,
        ran,
        record {
          valid = valid';
          local = add_source_with-Local sys opened laws w s src_id ip (pos q) fresh ran;
          made_in = s;
          lists = λ j. Outcome-lists fresh blank valid r.0 r.1 outcome j;
        },
      )

  accept_by :
      {w : Worker} {s : S} (c : Class)
      → is_rtcp c ≡ false
      → IsValid sys opened w s
      → (src_id == pos 0) ≡ false
      → list_at w.streams src_id ≡ none
      → q < 0x1_0000
      → Returns (add_source_by sys c w src_id ip (pos q) s) (Accepted w s)
  unfolding add_source_by Worker.add_source stats_add_source StreamList.new StreamList.clear
      StreamList.clear_destinations Stats.new StreamList.update_time_stamp
  accept_by {s} forward plain valid nonzero absent range =
      with_list (StreamList.new sys s) refl valid nonzero absent range
  accept_by rtcp plain valid nonzero absent range = cc
  accept_by {w} {s} stats plain valid nonzero absent range =
      let later : IsValid sys opened w (sys.time s).1 =
        other-IsValid sys opened valid (λ fd h k. laws.opened-time s fd ∙ k) in
      let (r, ran, a) = with_list (Stats.new sys s).0 refl later nonzero absent range in
      (
        r,
        ran,
        record {
          valid = a.valid;
          local = record {
            kept = λ f h k. a.local.kept f h (laws.opened-time s f ∙ k);
            taken = λ f h k. a.local.taken f h (laws.opened-time s f ∙ k);
          };
          made_in = a.made_in;
          lists = a.lists;
        },
      )

  -- A worker that is no RTCP worker accepts or refuses a new source, and stays well formed.
  pub add_source_of-Accepted :
      {w : Worker} {s : S}
      → is_rtcp w.class ≡ false
      → IsValid sys opened w s
      → (src_id == pos 0) ≡ false
      → list_at w.streams src_id ≡ none
      → q < 0x1_0000
      → Returns (add_source_of sys w src_id ip (pos q) s) (Accepted w s)
  unfolding add_source_of
  add_source_of-Accepted {w} = accept_by w.class
