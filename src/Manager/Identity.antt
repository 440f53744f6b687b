-- ===== src/Manager/Identity.antt =====
-- The class, the identifier and the type of a worker under the worker's methods.
use str_manager.Prelude.{◌≡◌, String, Bool, List, arith}
use str_manager.Int.{ℤ}
use str_manager.Run.{ok}
use str_manager.System.{System}
use str_manager.Message.{Message, Class, forward, rtcp, stats}
use str_manager.StreamList.{StreamList}
use str_manager.Worker
use str_manager.Worker.{
  Worker, add_source_with, remove_source, add_destination_to, remove_destination, stop,
}
use str_manager.Rtcp
use str_manager.Manager.Dispatch.{
  add_source_of, remove_source_of, add_destination_of, remove_destination_of, add_source_by,
  stats_add_source, rtcp_remove_source, remove_source_by, add_destination_by, remove_destination_by,
}

pub record SameIdentity (w w' : Worker) : Type 0 where
  pub class_same : w'.class ≡ w.class
  pub id_same : w'.worker_id ≡ w.worker_id
  pub type_same : w'.worker_type ≡ w.worker_type

module _ {S : Type 0} (sys : System S) (w : Worker) where
  add_source_with-id :
      (src_id : ℤ) (ip : String) (port : ℤ) (l : StreamList) (s : S) {b : Bool} {w' : Worker}
      {s' : S}
      → add_source_with sys w src_id ip port l s ≡ ok (b, w', s')
      → SameIdentity w w'
  unfolding add_source_with
  add_source_with-id src_id ip port l s e = ground arith

  rtcp_add_source-id :
      (src_id : ℤ) (ip : String) (port : ℤ) (s : S) {b : Bool} {w' : Worker} {s' : S}
      → Rtcp.add_source sys w src_id ip port s ≡ ok (b, w', s')
      → SameIdentity w w'
  unfolding Rtcp.add_source
  rtcp_add_source-id src_id ip port s e = ground arith

  remove_source-id :
      (src_id : ℤ) (s : S) {w' : Worker} {sent : List Message} {s' : S}
      → remove_source sys w src_id s ≡ ok (w', sent, s')
      → SameIdentity w w'
  unfolding remove_source stop
  remove_source-id src_id s e = ground arith

  rtcp_remove_source-id :
      (src_id : ℤ) (s : S) {w' : Worker} {sent : List Message} {s' : S}
      → rtcp_remove_source sys w src_id s ≡ ok (w', sent, s')
      → SameIdentity w w'
  unfolding rtcp_remove_source Rtcp.remove_source
  rtcp_remove_source-id src_id s e = ground arith

  add_destination_to-id :
      (src_id dest_id : ℤ) (ip : String) (port : ℤ) (s : S) {w' : Worker}
      → add_destination_to sys w src_id dest_id ip port s ≡ ok w'
      → SameIdentity w w'
  unfolding add_destination_to
  add_destination_to-id src_id dest_id ip port s e = ground arith

  rtcp_add_destination-id :
      (src_id dest_id : ℤ) (ip : String) (port : ℤ) (s : S) {w' : Worker}
      → Rtcp.add_destination_to sys w src_id dest_id ip port s ≡ ok w'
      → SameIdentity w w'
  unfolding Rtcp.add_destination_to
  rtcp_add_destination-id src_id dest_id ip port s e = ground arith

  add_source_by-id :
      (c : Class) (src_id : ℤ) (ip : String) (port : ℤ) (s : S) {b : Bool} {w' : Worker} {s' : S}
      → add_source_by sys c w src_id ip port s ≡ ok (b, w', s')
      → SameIdentity w w'
  unfolding add_source_by stats_add_source Worker.add_source
  add_source_by-id forward src_id ip port s e = add_source_with-id src_id ip port _ s e
  add_source_by-id rtcp src_id ip port s e = rtcp_add_source-id src_id ip port s e
  add_source_by-id stats src_id ip port s e = add_source_with-id src_id ip port _ _ e

  pub add_source_of-id :
      (src_id : ℤ) (ip : String) (port : ℤ) (s : S) {b : Bool} {w' : Worker} {s' : S}
      → add_source_of sys w src_id ip port s ≡ ok (b, w', s')
      → SameIdentity w w'
  unfolding add_source_of
  add_source_of-id src_id ip port s e = add_source_by-id w.class src_id ip port s e

  remove_source_by-id :
      (c : Class) (src_id : ℤ) (s : S) {w' : Worker} {sent : List Message} {s' : S}
      → remove_source_by sys c w src_id s ≡ ok (w', sent, s')
      → SameIdentity w w'
  unfolding remove_source_by
  remove_source_by-id forward src_id s e = remove_source-id src_id s e
  remove_source_by-id rtcp src_id s e = rtcp_remove_source-id src_id s e
  remove_source_by-id stats src_id s e = remove_source-id src_id s e

  pub remove_source_of-id :
      (src_id : ℤ) (s : S) {w' : Worker} {sent : List Message} {s' : S}
      → remove_source_of sys w src_id s ≡ ok (w', sent, s')
      → SameIdentity w w'
  unfolding remove_source_of
  remove_source_of-id src_id s e = remove_source_by-id w.class src_id s e

  add_destination_by-id :
      (c : Class) (src_id dest_id : ℤ) (ip : String) (port : ℤ) (s : S) {w' : Worker}
      → add_destination_by sys c w src_id dest_id ip port s ≡ ok w'
      → SameIdentity w w'
  unfolding add_destination_by
  add_destination_by-id forward src_id dest_id ip port s e =
      add_destination_to-id src_id dest_id ip port s e
  add_destination_by-id rtcp src_id dest_id ip port s e =
      rtcp_add_destination-id src_id dest_id ip port s e
  add_destination_by-id stats src_id dest_id ip port s e =
      add_destination_to-id src_id dest_id ip port s e

  pub add_destination_of-id :
      (src_id dest_id : ℤ) (ip : String) (port : ℤ) (s : S) {w' : Worker}
      → add_destination_of sys w src_id dest_id ip port s ≡ ok w'
      → SameIdentity w w'
  unfolding add_destination_of
  add_destination_of-id src_id dest_id ip port s e =
      add_destination_by-id w.class src_id dest_id ip port s e

module _ (w : Worker) (src_id dest_id : ℤ) where
  remove_destination_by-id :
      (c : Class) {w' : Worker}
      → remove_destination_by c w src_id dest_id ≡ ok w'
      → SameIdentity w w'
  unfolding remove_destination_by remove_destination Rtcp.remove_destination
  remove_destination_by-id forward e = ground arith
  remove_destination_by-id rtcp e = ground arith
  remove_destination_by-id stats e = ground arith

  pub remove_destination_of-id :
      {w' : Worker} → remove_destination_of w src_id dest_id ≡ ok w' → SameIdentity w w'
  unfolding remove_destination_of
  remove_destination_of-id e = remove_destination_by-id w.class e
