-- ===== src/Streams/Commute.antt =====
-- `conmuteStreamList` of Worker.cpp, which hands the destinations of one list to another.
use str_manager.Prelude.{
  ◌≡◌, subst, refl, ap, ◌∙◌, true, false, some, arith, if◌then◌else◌, inl, inr, Bool-cases,
}
use str_manager.Int.{ℤ, ◌==◌, ==_iff}
use str_manager.Run.{Returns}
use str_manager.System.{SockAddr}
use str_manager.StreamList.{StreamList, set_destinations, clear_destinations}
use str_manager.Streams.{Streams, get_stream_list, store, conmute_stream_list}
use str_manager.Streams.Views.{list_at, id_at, get_stream_list_lem}
use str_manager.Streams.Store.{store-lists}

-- The source list is left without destinations, the target has those of the source, and all else is
-- as before.
pub record Handed (st st' : Streams) (from to : ℤ) (a b : StreamList) : Type 0 where
  pub lists :
      (j : ℤ)
      → list_at st' j ≡ (
          if j == from
          then some (clear_destinations a)
          else if j == to
          then some (set_destinations b a.destinations)
          else list_at st j)
  pub ids : (addr : SockAddr) → id_at st' addr ≡ id_at st addr

module _ (st : Streams) (from to : ℤ) (a b : StreamList) (at_from : list_at st from ≡ some a)
    (at_to : list_at st to ≡ some b) where
  -- If both lists are there, `conmuteStreamList` returns. The list of `from` is left without
  -- destinations, that of `to` has those of `from` if it is another list, and all else is as before.
  -- So the destinations are lost if the two are one list.
  pub conmute_stream_list-Handed :
      Returns (conmute_stream_list st from to) (λ st'. Handed st st' from to a b)
  unfolding conmute_stream_list get_stream_list store clear_destinations set_destinations
  conmute_stream_list-Handed = rw (read_to ∙ at_to) (
      rw (read_from ∙ at_from) (elim (Bool-cases (from == to)) [
        | inl one ↦ rw (read_self one) (
          store st₄ from (clear_destinations b),
          refl,
          subst (λ c. Handed st (store st₄ from (clear_destinations c)) from to a b) (a_is_b one)
              handed,
        )
        | inr apart ↦ rw (read_apart apart) (store st₄ from (clear_destinations a), refl, handed)
      ]))
    where
      st₁ : Streams
      st₁ = (get_stream_list st from).1

      st₂ : Streams
      st₂ = (get_stream_list st₁ to).1

      st₃ : Streams
      st₃ = store st₂ to (set_destinations b a.destinations)

      read_from : (get_stream_list st from).0 ≡ list_at st from
      read_from = (get_stream_list_lem st from).0

      read_to : (get_stream_list st₁ to).0 ≡ list_at st to
      read_to = (get_stream_list_lem st₁ to).0 ∙ (get_stream_list_lem st from).1.lists to

      same₂ : (j : ℤ) → list_at st₂ j ≡ list_at st j
      same₂ j = (get_stream_list_lem st₁ to).1.lists j ∙ (get_stream_list_lem st from).1.lists j

      read_again :
          (get_stream_list st₃ from).0
          ≡ (if from == to then some (set_destinations b a.destinations) else list_at st₂ from)
      read_again =
          (get_stream_list_lem st₃ from).0
          ∙ store-lists st₂ to (set_destinations b a.destinations) from

      read_self :
          (from == to) ≡ true
          → (get_stream_list st₃ from).0 ≡ some (set_destinations b a.destinations)
      read_self one = rw (read_again, one) refl

      read_apart : (from == to) ≡ false → (get_stream_list st₃ from).0 ≡ some a
      read_apart apart = rw (read_again, apart, same₂ from) at_from

      a_is_b : (from == to) ≡ true → a ≡ b
      a_is_b one = ground (arith, at_from, at_to, ==_iff from to)

      st₄ : Streams
      st₄ = (get_stream_list st₃ from).1

      handed : Handed st (store st₄ from (clear_destinations a)) from to a b
      handed = record {
        lists = λ j.
            store-lists st₄ from (clear_destinations a) j
            ∙ ap (λ x. if j == from then some (clear_destinations a) else x)
                ((get_stream_list_lem st₃ from).1.lists j
                  ∙ store-lists st₂ to (set_destinations b a.destinations) j
                  ∙ ap (λ x. if j == to then some (set_destinations b a.destinations) else x)
                      (same₂ j));
        ids = λ addr. refl;
      }
