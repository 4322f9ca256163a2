-- ===== src/Tests/RouteRuns.antt =====
-- A route at concrete inputs.
use im_service_modify.Prelude.{◌↔◌, ℕ, ◌≡◌, refl, true, false, none, List, [], ◌∷◌}
use im_service_modify.Maps.{lookup, insert, remove}
use im_service_modify.Route.{
  Client, Call, connect, disconnect, enter_room, leave_room, call, calls, add_to_set, in_set,
  remove_from_set, add_under, remove_under, add_client, remove_client, add_room_client,
  remove_room_client, find_client_set, find_room_client_set, is_online, new_route,
}
use im_service_modify.Route.Laws.{connected, in_room, found_in, calls-found, calls-online, not_nil}

abbrev phone : Client
phone = record { address = 100; uid = 1 }

abbrev laptop : Client
laptop = record { address = 200; uid = 1 }

abbrev an_evening : List Call
an_evening =
    connect phone ∷ enter_room 9 phone ∷ connect laptop ∷ disconnect phone ∷ leave_room 9 phone ∷ []

calls-found_example :
    (found_in 200 (find_client_set 1 (calls an_evening (new_route 7)))
      ≡ connected 1 200 an_evening false)
    × (found_in 200 (find_room_client_set 1 (calls an_evening (new_route 7)))
        ≡ in_room 1 200 an_evening false)
calls-found_example = calls-found an_evening 7 1 200

calls-online_example :
    ((is_online 1 (calls an_evening (new_route 7)) ≡ true)
      ↔ ((j : ℕ) × (connected 1 j an_evening false ≡ true)))
    × (is_online 1 (calls an_evening (new_route 7))
        ≡ not_nil (find_client_set 1 (calls an_evening (new_route 7))))
calls-online_example = calls-online an_evening 7 1

still_online : is_online 1 (calls an_evening (new_route 7)) ≡ true
unfolding calls call add_client remove_client add_room_client remove_room_client add_under
    remove_under add_to_set remove_from_set in_set lookup insert remove is_online
still_online = refl

room_is_gone : find_room_client_set 9 (calls an_evening (new_route 7)) ≡ none
unfolding calls call add_client remove_client add_room_client remove_room_client add_under
    remove_under add_to_set remove_from_set in_set lookup insert remove find_room_client_set
room_is_gone = refl
