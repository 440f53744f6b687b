-- ===== src/Scripts.antt =====
-- The examples that run fixed calls: examples/BC_strManager/src/main.cpp sends one source to three
-- destinations, and examples/ZAP_strManager/src/main.cpp sends one of three sources to one destination
-- and goes on to the next at each empty line. The arguments are those after the program's name.
pub mod Zapping
pub mod Broadcasting
use Prim.Native.String.{String, []}
use str_manager.Prelude.{ℕ, ◌+◌, ◌%◌, List, [], ◌∷◌, if◌then◌else◌}
use str_manager.Int.{ℤ, pos, negsuc, ◌==◌}
use str_manager.Run.{Run, ok, ◌>>=◌}
use str_manager.Text.{same_text}
use str_manager.Text.Decimal.{atoi}
use str_manager.System.{System}
use str_manager.StreamList.Stats.{add_s32}
use str_manager.Manager.{Manager, new, add_source, add_destination, remove_destination}

-- The program ends with a code, or goes on.
pub data Outcome (A : Type 0) : Type 0 where
  returns : ℤ → Outcome A
  continues : A → Outcome A

-- The variables of the zapping example's loop.
pub record Zap : Type 0 where
  pub manager : Manager
  pub actual : ℕ
  pub res : ℤ
  pub ip : String
  pub port : String

module _ {S : Type 0} (sys : System S) (max_workers : ℕ) where
  unfoldable pub broadcast : List String → S → Run (Outcome Manager × S)
  unfolding add_s32 atoi
  broadcast (ip₁ ∷ port₁ ∷ ip₂ ∷ port₂ ∷ ip₃ ∷ port₃ ∷ ip₄ ∷ port₄ ∷ []) s = do
    (r₁, m₁, s₁) ← add_source sys max_workers new (pos 1) (pos 0) ip₁ (atoi port₁) s
    (r₂, m₂) ← add_destination sys m₁ (pos 0) (pos 1) ip₂ (atoi port₂) s₁
    (r₃, m₃) ← add_destination sys m₂ (pos 0) (pos 2) ip₃ (atoi port₃) s₁
    (r₄, m₄) ← add_destination sys m₃ (pos 0) (pos 3) ip₄ (atoi port₄) s₁
    let res = add_s32 (add_s32 (add_s32 r₁ r₂) r₃) r₄
    ok (if res == pos 0 then continues m₄ else returns (negsuc 1), s₁)
  broadcast _ s = ok (returns (negsuc 0), s)

  unfoldable pub zap_start : List String → S → Run (Outcome Zap × S)
  unfolding add_s32 atoi
  zap_start (ip₁ ∷ port₁ ∷ ip₂ ∷ port₂ ∷ ip₃ ∷ port₃ ∷ ip₄ ∷ port₄ ∷ []) s = do
    (r₁, m₁, s₁) ← add_source sys max_workers new (pos 1) (pos 0) ip₁ (atoi port₁) s
    (r₂, m₂, s₂) ← add_source sys max_workers m₁ (pos 1) (pos 1) ip₂ (atoi port₂) s₁
    (r₃, m₃, s₃) ← add_source sys max_workers m₂ (pos 1) (pos 2) ip₃ (atoi port₃) s₂
    (r₄, m₄) ← add_destination sys m₃ (pos 0) (pos 3) ip₄ (atoi port₄) s₃
    let res = add_s32 (add_s32 (add_s32 r₁ r₂) r₃) r₄
    let zap : Zap = record { manager = m₄; actual = 0; res = res; ip = ip₄; port = port₄ }
    ok (if res == pos 0 then continues zap else returns (negsuc 1), s₃)
  zap_start _ s = ok (returns (negsuc 0), s)

  -- One round of the loop, on the line that it reads.
  unfoldable pub zap_round : Zap → String → S → Run (Outcome Zap)
  unfolding add_s32 atoi
  zap_round z line s =
      if same_text line ""
      then (do
        (r, m) ← remove_destination z.manager (pos z.actual) (pos 3)
        let next = (z.actual + 1) % 3
        (r', m') ← add_destination sys m (pos next) (pos 3) z.ip (atoi z.port) s
        let res = add_s32 (add_s32 z.res r) r'
        let z' : Zap = record z { manager = m'; actual = next; res = res }
        ok (if res == pos 0 then continues z' else returns (negsuc 1)))
      else ok (continues z)

  -- The loop, over the lines with the state of the machine at each. The program reads empty lines for
  -- ever after the end of its input. What the threads of the workers do in between is left out.
  unfoldable pub zap_loop : Zap → List (String × S) → Run (Outcome Zap)
  unfolding zap_round
  zap_loop z [] = ok (continues z)
  zap_loop z (line ∷ lines) =
      zap_round z line.0 line.1
      >>= (λ o. elim o [ returns code ↦ ok (returns code) | continues z' ↦ zap_loop z' lines ])
