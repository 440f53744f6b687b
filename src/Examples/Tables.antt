-- ===== src/Examples/Tables.antt =====
-- The theorems on re-added sources and on the abstract tables, each applied to the tables of the
-- examples.
use str_manager.Prelude.{◌≡◌, refl, Bool, false, none, some}
use str_manager.Int.{pos}
use str_manager.Run.{Returns, ◌>>=◌}
use str_manager.System.{SockAddr}
use str_manager.System.Toy.{Machine, toy}
use str_manager.Table.{find?}
use str_manager.Table.Keys.{int_key}
use str_manager.Udp.{addr_key, UdpStream, sock_addr_cmp}
use str_manager.StreamList.{StreamList}
use str_manager.Streams.{empty, add_stream_list, remove_stream_list}
use str_manager.Streams.Views.{list_at, id_at}
use str_manager.Streams.Abstract.{view, add_stream_list_comm, remove-add_stream_list}
use str_manager.Worker.{Worker, add_source_with}
use str_manager.Examples.{machine', fresh, sender, source, list, worker, value, served}

-- The worker after `addSource(5, "other", 7001)`, a second time with the identifier 5.
abbrev again : Bool × Worker × Machine
again =
    value (false, worker, machine')
      (add_source_with toy served (pos 5) "other" (pos 7001) fresh machine')

-- A second list, of another source.
abbrev other_sender : SockAddr
other_sender = record { sin_family = 2; sin_addr = 5; sin_port = 0x581b }

abbrev other_source : UdpStream
other_source = record { id = pos 6; addr = other_sender }

abbrev other_list : StreamList
other_list = record list { list_id = pos 6; source = some other_source }

apart : sock_addr_cmp sender other_sender ≡ false
unfolding sock_addr_cmp
apart = refl

free : find? (pos 5) empty.management ≡ none
unfolding find?
free = refl

free2 : find? sender empty.forwarding ≡ none
unfolding find?
free2 = refl

add_stream_list_comm_example :
    Returns
      (add_stream_list empty (pos 5) list >>= (λ st₁. add_stream_list st₁ (pos 6) other_list))
      λ one.
        Returns
          (add_stream_list empty (pos 6) other_list >>= (λ st₂. add_stream_list st₂ (pos 5) list))
          λ other.
            (view one ≡ view other)
            × (list_at one (pos 5) ≡ some list)
            × (list_at one (pos 6) ≡ some other_list)
            × (id_at one source.addr ≡ pos 5)
            × (id_at one other_source.addr ≡ pos 6)
add_stream_list_comm_example =
    add_stream_list_comm empty (pos 5) list source refl (pos 6) other_list other_source refl refl
      apart

remove-add_stream_list_example :
    Returns
      (add_stream_list empty (pos 5) list >>= (λ st₁. remove_stream_list st₁ (pos 5)))
      λ st'. view st' ≡ view empty
remove-add_stream_list_example = remove-add_stream_list empty (pos 5) list source refl free free2
