-- ===== src/Message.antt =====
-- Message.h, Message.cpp and Constants.h: what a worker tells its manager, and the worker types.
-- `body` is a text of the program's own, shorter than the 255 bytes that the class reserves.
use str_manager.Prelude.{String}
use str_manager.Int.{ℤ, pos, negsuc}

pub record Message : Type 0 where
  pub type : ℤ
  pub from : ℤ
  pub body : String

unfoldable pub new : ℤ → ℤ → String → Message
new type from body = record { type = type; from = from; body = body }

-- The message by which a worker without streams asks to be dropped, and that of an idle round.
abbrev pub no_job : ℤ → Message
no_job id = record { type = pos 100; from = id; body = "WORKER DOESN'T HAVE ANY JOB TO PERFORM" }

abbrev pub nothing_to_do : ℤ → Message
nothing_to_do id = record { type = pos 0; from = id; body = "NOTHING TO DO" }

-- The concrete classes of workers.
pub data Class : Type 0 where
  forward rtcp stats : Class

abbrev pub def_worker_type : ℤ
def_worker_type = negsuc 0

abbrev pub fwd_worker_type : ℤ
fwd_worker_type = pos 1

abbrev pub stats_worker_type : ℤ
stats_worker_type = pos 2

abbrev pub rtcp_worker_type : ℤ
rtcp_worker_type = pos 4

-- What each constructor passes to `setWorkerType`.
abbrev pub type_of : Class → ℤ
type_of forward = fwd_worker_type
type_of rtcp = rtcp_worker_type
type_of stats = stats_worker_type
