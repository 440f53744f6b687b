-- ===== src/Manager/Book/Threads.antt =====
-- The other steps that are no call that changes a source: rounds of `generateStats`, and
-- `readTimeStamp`.
use str_manager.Prelude.{ℕ, Bool, ◌≡◌, refl, ap, sym, ◌∙◌, Option-cases, inl, inr, arith, get_elem?}
use str_manager.Int.{ℤ, pos, div_by}
use str_manager.Run.{Run-cases, of_Returns, ok}
use str_manager.System.{System, SystemLaws}
use str_manager.Table.{find?}
use str_manager.Table.Keys.{int_key}
use str_manager.StreamList.Stats.{add_s32}
use str_manager.Streams.{get_stream_list}
use str_manager.Streams.Views.{get_stream_list_lem}
use str_manager.Worker
use str_manager.Worker.{Worker}
use str_manager.Worker.Sources.{same-IsValid}
use str_manager.Worker.Valid.{IsValid}
use str_manager.Report.{Report, update_lists, generate_stats}
use str_manager.Report.Alike.{Distinct-Alike, total-Alike, list_at-Alike, IsLinked-Alike}
use str_manager.Report.Quiet.{update_lists-Alike}
use str_manager.Manager.{Manager, read_time_stamp, write}
use str_manager.Manager.Sound.{Sound, still-Sound, other-IsValid}
use str_manager.Manager.Book.{book, summary}
use str_manager.Manager.Book.Quiet.{Quiet, Quiet-Sound}

module _ {S : Type 0} (sys : System S) (opened : S → ℤ → Bool) (laws : SystemLaws sys opened) where
  pub generate_stats-Quiet :
      (w : Worker) (s : S) {r : Report × Worker × S}
      → IsValid sys opened w s
      → generate_stats sys w s ≡ ok r
      → Quiet sys opened w s (r.1, r.2)
  unfolding generate_stats
  generate_stats-Quiet w s valid e = elim (Run-cases (update_lists sys w.streams.management s)) [
    | inl (failure, faulty) ↦ absurd (ground arith)
    | inr ((t, s₁), ran) ↦
        let rep : Report = record {
          input_rate = div_by w.input_bytes 1250;
          output_rate = div_by w.output_bytes 1250;
          total_rate = add_s32 (div_by w.input_bytes 1250) (div_by w.output_bytes 1250);
        } in
        let w' : Worker = record w {
          input_bytes = pos 0;
          output_bytes = pos 0;
          streams = record w.streams { management = t };
        } in
        let (alike, still) = update_lists-Alike sys opened laws w.streams.management s ran in
        of_Returns {P = λ r. Quiet sys opened w s (r.1, r.2)}
          (
            (rep, w', s₁),
            rw ran refl,
            record {
              valid =
                  other-IsValid sys opened
                    (record {
                      sockets = valid.sockets;
                      routes = IsLinked-Alike w.streams _ alike refl valid.routes;
                      keyed = Distinct-Alike w.streams.management t alike valid.keyed;
                      shared = λ q.
                          valid.shared q
                          ∙ ap pos (sym (total-Alike sys q w.streams.management t alike));
                    })
                    (λ fd owned. still fd);
              class = refl;
              ports = λ f. refl;
              lists = list_at-Alike w.streams _ alike refl;
              still = still;
            },
          )
          e
  ]

  stamp-Quiet :
      (w : Worker) (s : S) (src_id : ℤ) {r : ℕ × Worker}
      → IsValid sys opened w s
      → Worker.read_time_stamp w src_id ≡ ok r
      → Quiet sys opened w s (r.1, s)
  unfolding Worker.read_time_stamp
  stamp-Quiet w s src_id valid e = elim (Option-cases (get_stream_list w.streams src_id).0) [
    | inl absent ↦ absurd (ground arith)
    | inr (l, present) ↦
        let same = (get_stream_list_lem w.streams src_id).1 in
        of_Returns {P = λ r. Quiet sys opened w s (r.1, s)}
          (
            (l.time_stamp, record w { streams = (get_stream_list w.streams src_id).1 }),
            rw present refl,
            record {
              valid = same-IsValid sys valid valid.sockets (λ p. refl) same;
              class = refl;
              ports = λ f. refl;
              lists = λ j. ap summary (same.lists j);
              still = λ fd h. h;
            },
          )
          e
  ]

  pub read_time_stamp-Sound :
      (m : Manager) {s : S} (sound : Sound sys opened m.heap m.src_id_worker s) (src_id : ℤ)
      {r : ℕ × Manager × S}
      → read_time_stamp sys m src_id s ≡ ok r
      → Sound sys opened r.1.heap r.1.src_id_worker r.2 × ((j : ℤ) → book r.1 j ≡ book m j)
  unfolding read_time_stamp write
  read_time_stamp-Sound m {s} sound src_id e = elim (Option-cases (find? src_id m.src_id_worker)) [
    | inl unknown ↦
        of_Returns
          {P = λ r.
            Sound sys opened r.1.heap r.1.src_id_worker r.2 × ((j : ℤ) → book r.1 j ≡ book m j)}
          (
            ((sys.time s).0, m, (sys.time s).1),
            rw (unknown, read_time_stamp) refl,
            (still-Sound sys opened sound (λ fd h. laws.opened-time s fd ∙ h), λ j. refl),
          )
          e
    | inr (p, known) ↦ elim (Option-cases (get_elem? m.heap p)) [
      | inl dangling ↦ absurd (ground (arith, sound.owned src_id p known))
      | inr (w, there) ↦ elim (Run-cases (Worker.read_time_stamp w src_id)) [
        | inl (failure, faulty) ↦ absurd (ground arith)
        | inr ((stamp, w'), ran) ↦
            of_Returns
              {P = λ r.
                Sound sys opened r.1.heap r.1.src_id_worker r.2 × ((j : ℤ) → book r.1 j ≡ book m j)}
              (
                (stamp, write m p w', s),
                rw (known, read_time_stamp) (rw (there, ran) refl),
                Quiet-Sound sys opened m sound p w there
                    (stamp-Quiet w s src_id (sound.valid p w there) ran),
              )
              e
      ]
    ]
  ]
