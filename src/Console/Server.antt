-- ===== src/Console/Server.antt =====
-- `main` of examples/WS_strManager/src/main_ws.cpp. The gSOAP runtime is a parameter: `X` is the state of
-- its connections. What the program writes to its terminal, and the release of the runtime's memory
-- after a request, are left out.
use Prim.Native.String.{String}
use str_manager.Prelude.{
  ℕ, zero, suc, Bool, true, false, Option, none, some, List, [], ◌∷◌, if◌then◌else◌,
}
use str_manager.Int.{ℤ}
use str_manager.Run.{Run, ok, ◌>>=◌}
use str_manager.System.{System}
use str_manager.Console.{Console, Reply, ended, start}
use str_manager.Console.Web.{Request, Response, done, serve, listen_port}

-- `soap_bind` and `soap_accept` say whether they have a socket. `soap_serve` reads a request, if there
-- is a proper one, calls its handler and sends the answer.
pub record Soap (X : Type 0) : Type 0 where
  pub bind : ℤ → X → Bool × X
  pub accept : X → Bool × X
  pub request : X → Option Request × X
  pub answer : Response → X → X

-- Where the program is: it has printed its usage, it has refused its argument, it has no socket to go on
-- with, a command has made it exit, or its loop goes on after the rounds given.
pub data Stand : Type 0 where
  usage bad_port no_socket exited serving : Stand

abbrev is_ended : Reply → Bool
is_ended ended = true
is_ended _ = false

-- The command was `exit`.
abbrev pub exits : Response → Bool
exits (done b reply) = is_ended reply
exits _ = false

module _ {S X : Type 0} (sys : System S) (max_workers : ℕ) (soap : Soap X) where
  -- The loop, for a number of rounds.
  unfoldable pub serve_all : ℕ → Bool → X → Console → S → Run (Stand × Console × S)
  serve_all zero debug x c s = ok (serving, c, s)
  serve_all (suc n) debug x c s =
      let (accepted, x₁) = soap.accept x in
      let (arrived, x₂) = soap.request x₁ in
      if accepted
      then elim arrived [
        | none ↦ serve_all n debug x₂ c s
        | some request ↦ serve sys max_workers debug request c s >>= (λ v.
            let rest = serve_all n debug (soap.answer v.0 x₂) v.1 v.2 in
            if exits v.0 then ok (exited, v.1, v.2) else rest)
      ]
      else ok (no_socket, c, s)

  unfoldable pub listen : ℕ → Bool → ℤ → X → S → Run (Stand × Console × S)
  unfolding serve_all
  listen rounds debug port x s =
      let (bound, x₁) = soap.bind port x in
      if bound then serve_all rounds debug x₁ start s else ok (no_socket, start, s)

  -- The arguments are those after the program's name.
  unfoldable pub main : ℕ → Bool → List String → X → S → Run (Stand × Console × S)
  unfolding listen listen_port
  main rounds debug [] x s = ok (usage, start, s)
  main rounds debug (text ∷ []) x s = elim (listen_port text) [
    | none ↦ ok (bad_port, start, s)
    | some port ↦ listen rounds debug port x s
  ]
  main rounds debug (text ∷ more ∷ rest) x s = ok (usage, start, s)
