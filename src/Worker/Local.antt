-- ===== src/Worker/Local.antt =====
-- The methods of a worker leave alone the descriptors that the worker does not own.
use str_manager.Prelude.{
  ◌≡◌, sym, subst, inl, inr, String, Bool, false, List, some, arith, Bool-cases,
}
use str_manager.Int.{ℤ, pos, truthy}
use str_manager.Run.{ok}
use str_manager.System.{System, SystemLaws}
use str_manager.Message.{Message}
use str_manager.StreamList.{StreamList, get_source_port}
use str_manager.Streams.{get_list_id_by_socket}
use str_manager.Streams.Views.{list_at, get_stream_list_lem}
use str_manager.Udp
use str_manager.Udp.{UdpStream}
use str_manager.Ports.{Ports, add_socket, remove_socket}
use str_manager.Ports.Local.{Local, still-Local, add_socket-Local, remove_socket-Local}
use str_manager.Worker.{Worker, add_source_with, remove_source, stop}
use str_manager.Worker.Valid.{IsValid, source-open}

module _ {S : Type 0} (sys : System S) (opened : S → ℤ → Bool) (laws : SystemLaws sys opened)
    (w : Worker) (s : S) where
  same-Local : {p' : Ports} {s' : S} → p' ≡ w.ports → s' ≡ s → Local opened w.ports p' s s'
  same-Local same kept = still-Local (λ f h. ground (arith, kept)) (λ f. ground (arith, same))

  pub add_source_with-Local :
      (src_id : ℤ) (ip : String) (port : ℤ) (l : StreamList) {b : Bool} {w' : Worker} {s' : S}
      → add_source_with sys w src_id ip port l s ≡ ok (b, w', s')
      → Local opened w.ports w'.ports s s'
  unfolding add_source_with
  add_source_with-Local src_id ip port l {w'} {s'} e = elim (Bool-cases (truthy known)) [
    | inl old ↦ same-Local (ground arith) (ground arith)
    | inr new ↦
        subst (λ p. Local opened w.ports p s s') (sym (ports_lem new))
          (subst (λ t. Local opened w.ports r.1 s t) (sym (state_lem new))
            (add_socket-Local sys opened laws port))
  ]
    where
      known : ℤ
      known = (get_list_id_by_socket w.streams (Udp.make sys s src_id ip port).addr).0

      r : ℤ × Ports × S
      r = add_socket sys w.ports port s

      ports_lem : truthy known ≡ false → w'.ports ≡ r.1
      ports_lem new = ground arith

      state_lem : truthy known ≡ false → s' ≡ r.2
      state_lem new = ground arith

  pub remove_source-Local :
      (valid : IsValid sys opened w s) (src_id : ℤ) (l : StreamList) (u : UdpStream)
      → list_at w.streams src_id ≡ some l
      → l.source ≡ some u
      → {w' : Worker} {sent : List Message} {s' : S}
      → remove_source sys w src_id s ≡ ok (w', sent, s')
      → Local opened w.ports w'.ports s s'
  unfolding remove_source stop get_source_port
  remove_source-Local valid src_id l u present source {w'} {s'} e =
      let (fd, is_open) = source-open sys valid src_id l u present source in
      let there = (get_stream_list_lem w.streams src_id).0 in
      let r = remove_socket sys w.ports (pos (Udp.port_of sys u)) s in
      let ports_lem : w'.ports ≡ r.1 = ground (arith, there, present, source) in
      let state_lem : s' ≡ r.2 = ground (arith, there, present, source) in
      subst (λ p. Local opened w.ports p s s') (sym ports_lem)
        (subst (λ t. Local opened w.ports r.1 s t) (sym state_lem)
          (remove_socket-Local sys opened laws (pos (Udp.port_of sys u)) valid.sockets is_open))
