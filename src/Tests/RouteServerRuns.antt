-- ===== src/Tests/RouteServerRuns.antt =====
-- A route of the route server at concrete inputs.
use im_service_modify.Prelude.{◌≡◌, refl, true, false, none, List, [], ◌∷◌}
use im_service_modify.Maps.{lookup, insert, remove}
use im_service_modify.RouteServer.{
  Update, add_user, remove_user, add_room, remove_room, run, new_server_route, contains,
  contain_user_id, is_user_online, get_user_ids, contain_room_id, add_user_id, remove_user_id,
  add_room_id, remove_room_id, has_value, bool_or_false,
}
use im_service_modify.RouteServer.Laws.{user_after, room_after, run-answers}

abbrev some_updates : List Update
some_updates = add_user 1 true ∷ add_room 9 ∷ add_user 2 false ∷ remove_user 1 ∷ remove_room 9 ∷ []

run-answers_example :
    (is_user_online 2 (run some_updates (new_server_route 7))
      ≡ bool_or_false (user_after 2 some_updates none))
    × (contain_user_id 2 (run some_updates (new_server_route 7))
        ≡ has_value (user_after 2 some_updates none))
    × (contains 2 (get_user_ids (run some_updates (new_server_route 7)))
        ≡ has_value (user_after 2 some_updates none))
    × (contain_room_id 2 (run some_updates (new_server_route 7)) ≡ room_after 2 some_updates false)
run-answers_example = run-answers some_updates 7 2

known_but_offline : is_user_online 2 (run some_updates (new_server_route 7)) ≡ false
unfolding run add_user_id remove_user_id add_room_id remove_room_id lookup insert remove
    is_user_online
known_but_offline = refl
