-- ===== src/Console/Listening.antt =====
-- The loop of the web service, from the start of `main` on, against the executions of the manager.
use Prim.Native.String.{String}
use str_manager.Prelude.{
  ℕ, zero, suc, ◌≡◌, refl, Bool, false, Option, none, some, List, [], ◌∷◌, inl, inr, Bool-cases,
  Option-cases, if◌then◌else◌,
}
use str_manager.Int.{ℤ}
use str_manager.Run.{Run, ok, Returns, ◌>>=◌}
use str_manager.System.{System, SystemLaws}
use str_manager.Table.Keys.{int_key}
use str_manager.Manager.Book.Executions.{started}
use str_manager.Console.{Console, start}
use str_manager.Console.Web.{Request, Response, serve, listen_port}
use str_manager.Console.Server.{Soap, Stand, exited, exits, serve_all, listen, main}
use str_manager.Console.Serving.{IsFit, Executed, serve-Executed}

module _ {S X : Type 0} (sys : System S) (opened : S → ℤ → Bool) (laws : SystemLaws sys opened)
    (max_workers : ℕ) (soap : Soap X) where
  abbrev FitArrival : (X → Console → S → Type 0) → Bool → X → Console → S → Option Request → Type 0
  FitArrival next debug x c s none = next x c s
  FitArrival next debug x c s (some request) =
      IsFit c request
      × ((v : Response × Console × S)
          → serve sys max_workers debug request c s ≡ ok v
          → exits v.0 ≡ false
          → next (soap.answer v.0 x) v.1 v.2)

  -- In the next rounds only fit requests come.
  abbrev pub AllFit : ℕ → Bool → X → Console → S → Type 0
  AllFit zero debug x c s = Unit
  AllFit (suc n) debug x c s =
      let arrived = soap.request (soap.accept x).1 in
      FitArrival (AllFit n debug) debug arrived.1 c s arrived.0

  abbrev Ended : Run (Stand × Console × S) → Type 0
  Ended r = Returns r (λ v. Executed sys opened max_workers v.1 v.2)

  serve_all-Executed :
      (n : ℕ) (debug : Bool) (x : X) {c : Console} {s : S}
      → Executed sys opened max_workers c s
      → AllFit n debug x c s
      → Ended (serve_all sys max_workers soap n debug x c s)
  unfolding serve_all
  serve_all-Executed zero debug x before fit = (_, refl, before)
  serve_all-Executed (suc n) debug x {c} {s} before fit = elim (Bool-cases (soap.accept x).0) [
    | inr closed ↦ rw closed (_, refl, before)
    | inl accepted ↦ rw accepted (
        after_arrival (soap.request (soap.accept x).1).0 _ fit
          (λ x' c' s' before' fit'. serve_all-Executed n debug x' before' fit'))
  ]
    where
      after_arrival :
          (o : Option Request) (x₂ : X)
          → FitArrival (AllFit n debug) debug x₂ c s o
          → ((x' : X) (c' : Console) (s' : S)
              → Executed sys opened max_workers c' s'
              → AllFit n debug x' c' s'
              → Ended (serve_all sys max_workers soap n debug x' c' s'))
          → Ended (elim o [
            | none ↦ serve_all sys max_workers soap n debug x₂ c s
            | some request ↦ serve sys max_workers debug request c s >>= (λ v.
                let rest = serve_all sys max_workers soap n debug (soap.answer v.0 x₂) v.1 v.2 in
                if exits v.0 then ok (exited, v.1, v.2) else rest)
          ])
      after_arrival none x₂ rest again = again x₂ c s before rest
      after_arrival (some request) x₂ (fits, rest) again =
          let (v, ran, after) =
            serve-Executed sys opened laws max_workers before debug request fits in
          rw ran (elim (Bool-cases (exits v.0)) [
            | inl out ↦ rw out (_, refl, after)
            | inr on ↦ rw on (again (soap.answer v.0 x₂) v.1 v.2 after (rest v ran on))
          ])

  start-Executed : (s : S) → Executed sys opened max_workers start s
  unfolding start
  start-Executed s = record { execution = started s }

  -- Whatever its arguments, `main` returns after any number of rounds, if the requests that come at a
  -- proper port are fit: each adds no source but one with a worker type other than RTCP's, an identifier
  -- that is not 0 and not in use at that time, and a port of 16 bits; none is one of the three requests for
  -- a table, and no command prints the table of ports. It leaves the manager as an execution does.
  pub main-Returns :
      (rounds : ℕ) (debug : Bool) (args : List String) (x : X) (s : S)
      → ((port : ℤ) → AllFit rounds debug (soap.bind port x).1 start s)
      → Returns
          (main sys max_workers soap rounds debug args x s)
          (λ v. Executed sys opened max_workers v.1 v.2)
  unfolding main listen
  main-Returns rounds debug [] x s fit = (_, refl, start-Executed s)
  main-Returns rounds debug (text ∷ more ∷ rest) x s fit = (_, refl, start-Executed s)
  main-Returns rounds debug (text ∷ []) x s fit = elim (Option-cases (listen_port text)) [
    | inl wrong ↦ rw (wrong, main) (_, refl, start-Executed s)
    | inr (port, right) ↦ elim (Bool-cases (soap.bind port x).0) [
      | inl bound ↦
          rw (right, bound, main) (serve_all-Executed rounds debug _ (start-Executed s) (fit port))
      | inr unbound ↦ rw (right, unbound, main) (_, refl, start-Executed s)
    ]
  ]
