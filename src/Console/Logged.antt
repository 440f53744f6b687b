-- ===== src/Console/Logged.antt =====
-- Calls inside of a debug message: what holds before and after the call holds after the message.
use Prim.Native.String.{String}
use str_manager.Prelude.{ℕ, refl, Bool, true, false}
use str_manager.Int.{ℤ}
use str_manager.Run.{Run, Returns}
use str_manager.System.{System}
use str_manager.Console.{Console, log_code, log_text}

module _ {S : Type 0} (sys : System S) (max_workers : ℕ) (P : Console → S → Type 0) {c : Console}
    {s : S} (before : P c s) where
  pub log_code-Logged :
      (debug : Bool) (call : Run (ℤ × Console × S))
      → Returns call (λ v. P v.1 v.2)
      → Returns (log_code sys max_workers debug call c s) (λ v. P v.1 v.2)
  unfolding log_code
  log_code-Logged false call kept = (_, refl, before)
  log_code-Logged true call (v, ran, after) = rw ran (_, refl, after)

  pub log_text-Logged :
      (debug : Bool) (call : Run String)
      → Returns call (λ text. Unit {0})
      → Returns (log_text sys max_workers debug call c s) (λ v. P v.1 v.2)
  unfolding log_text
  log_text-Logged false call kept = (_, refl, before)
  log_text-Logged true call (v, ran, u) = rw ran (_, refl, before)
