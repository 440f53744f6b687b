-- ===== src/Report/Quiet.antt =====
-- A round of `generateStats` against the streams of the worker.
use str_manager.Prelude.{
  ◌≡◌, refl, ap, sym, ◌∙◌, Bool, true, Option, none, some, [], ◌∷◌, arith, Option-cases, inl, inr,
}
use str_manager.Int.{ℤ, pos}
use str_manager.Run.{Run-cases, Returns, of_Returns, ok}
use str_manager.System.{System, SystemLaws, SockAddr}
use str_manager.StreamList.{StreamList, Rates, update_time_stamp}
use str_manager.StreamList.Stats.{update}
use str_manager.Streams.Views.{list_at, route}
use str_manager.Ports.Local.{is_some}
use str_manager.Ports.Branches.{StillOpen}
use str_manager.Worker.{Worker}
use str_manager.Worker.Valid.{IsValid}
use str_manager.Manager.Sound.{other-IsValid}
use str_manager.Manager.Book.{summary}
use str_manager.Report.{Report, update_lists, generate_stats}
use str_manager.Report.Alike.{
  Lists, Alike, Distinct-Alike, total-Alike, list_at-Alike, route-Alike, IsLinked-Alike,
}

-- Every list is of the subclass.
abbrev pub has_rates : Option StreamList → Bool
has_rates none = true
has_rates (some l) = is_some l.rates

abbrev pub AllRated : Lists → Type 0
AllRated [] = Unit {0}
AllRated (e ∷ t) = (has_rates e.1 ≡ true) × AllRated t

module _ {S : Type 0} (sys : System S) (opened : S → ℤ → Bool) (laws : SystemLaws sys opened) where
  update_quiet :
      (l : StreamList) (r : Rates) (s : S)
      → l.rates ≡ some r
      → (summary (some (update sys l r s).0) ≡ summary (some l))
        × (is_some (update sys l r s).0.rates ≡ true)
        × StillOpen opened s (update sys l r s).1
  unfolding update update_time_stamp
  update_quiet l r s rated = (
    ground arith,
    ground arith,
    λ fd h. ground (arith, laws.opened-time s fd, laws.opened-time (sys.time s).1 fd),
  )

  record Updated (t : Lists) (s : S) (r : Lists × S) : Type 0 where
    pub alike : Alike t r.0
    pub rated : AllRated r.0
    pub still : StillOpen opened s r.1

  update_lists-Updated :
      (t : Lists) (s : S) → AllRated t → Returns (update_lists sys t s) (Updated t s)
  unfolding update_lists
  update_lists-Updated [] s all = (_, refl, record { alike = tt; rated = tt; still = λ fd h. h })
  update_lists-Updated ((id, none) ∷ t) s (h, all) =
      let ((t', s'), ran, u) = update_lists-Updated t s all in
      rw ran (
        _,
        refl,
        record { alike = (refl, refl, u.alike); rated = (refl, u.rated); still = u.still },
      )
  update_lists-Updated ((id, some l) ∷ t) s (h, all) = elim (Option-cases l.rates) [
    | inl plain ↦ absurd (ground arith)
    | inr (r, rated) ↦
        let (same, rates, still) = update_quiet l r s rated in
        let ((t', s'), ran, u) = update_lists-Updated t (update sys l r s).1 all in
        rw (rated, ran)
          (
            _,
            refl,
            record {
              alike = (refl, same, u.alike);
              rated = (rates, u.rated);
              still = λ fd k. u.still fd (still fd k);
            },
          )
  ]

  -- A round that returns changes no more than that, whatever the lists are.
  pub update_lists-Alike :
      (t : Lists) (s : S) {r : Lists × S}
      → update_lists sys t s ≡ ok r
      → Alike t r.0 × StillOpen opened s r.1
  unfolding update_lists
  update_lists-Alike [] s e =
      of_Returns {P = λ r. Alike [] r.0 × StillOpen opened s r.1} (_, refl, (tt, λ fd h. h)) e
  update_lists-Alike ((id, none) ∷ t) s e = elim (Run-cases (update_lists sys t s)) [
    | inl (failure, faulty) ↦ absurd (ground arith)
    | inr ((t₁, s₁), ran) ↦
        let (alike, still) = update_lists-Alike t s ran in
        of_Returns {P = λ r. Alike ((id, none) ∷ t) r.0 × StillOpen opened s r.1}
          (((id, none) ∷ t₁, s₁), rw ran refl, ((refl, refl, alike), still)) e
  ]
  update_lists-Alike ((id, some l) ∷ t) s e = elim (Option-cases l.rates) [
    | inl plain ↦ absurd (ground arith)
    | inr (r, rated) ↦
        let (same, rates, opens) = update_quiet l r s rated in
        elim (Run-cases (update_lists sys t (update sys l r s).1)) [
          | inl (failure, faulty) ↦ absurd (ground arith)
          | inr ((t₁, s₁), ran) ↦
              let (alike, still) = update_lists-Alike t (update sys l r s).1 ran in
              of_Returns {P = λ r. Alike ((id, some l) ∷ t) r.0 × StillOpen opened s r.1}
                (
                  ((id, some (update sys l r s).0) ∷ t₁, s₁),
                  ground (arith, rated, ran),
                  ((refl, same, alike), λ fd k. still fd (opens fd k)),
                )
                e
        ]
  ]

  -- What a round keeps.
  pub record Kept (w : Worker) (s : S) (r : Report × Worker × S) : Type 0 where
    pub valid : IsValid sys opened r.1 r.2
    pub rated : AllRated r.1.streams.management
    pub lists : (j : ℤ) → summary (list_at r.1.streams j) ≡ summary (list_at w.streams j)
    pub routes : (a : SockAddr) → route r.1.streams a ≡ route w.streams a
    pub taken : (r.1.input_bytes ≡ pos 0) × (r.1.output_bytes ≡ pos 0)

  -- On a well formed worker whose lists are all of the subclass, a round of `generateStats` returns. The
  -- worker stays well formed and its lists stay of the subclass, with the sources and destinations as
  -- before; every packet has the same receivers as before; and the counters are back at 0.
  pub generate_stats-Kept :
      (w : Worker) (s : S)
      → IsValid sys opened w s
      → AllRated w.streams.management
      → Returns (generate_stats sys w s) (Kept w s)
  unfolding generate_stats
  generate_stats-Kept w s valid all =
      let ((t, s'), ran, u) = update_lists-Updated w.streams.management s all in
      rw ran (
        _,
        refl,
        record {
          valid =
              other-IsValid sys opened
                (record {
                  sockets = valid.sockets;
                  routes = IsLinked-Alike w.streams _ u.alike refl valid.routes;
                  keyed = Distinct-Alike w.streams.management t u.alike valid.keyed;
                  shared = λ q.
                      valid.shared q
                      ∙ ap pos (sym (total-Alike sys q w.streams.management t u.alike));
                })
                (λ fd owned. u.still fd);
          rated = u.rated;
          lists = list_at-Alike w.streams _ u.alike refl;
          routes = route-Alike w.streams _ u.alike refl;
          taken = (refl, refl);
        },
      )
