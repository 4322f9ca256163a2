-- ===== src/RouteServer/Instance.antt =====
-- ServerIMR/model/Client.go and serverCommon/model/app_route.go: the routes of one instance of
-- ServerIM at the route server, by app, and what the instance's subscriptions do to them. No
-- one but the map holds a route, so the map has the routes themselves.
use im_service_modify.Prelude.{ℕ, Bool, false, not, List, Option, none, some, ◌==◌, if◌then◌else◌}
use im_service_modify.Maps.{lookup, insert}
use im_service_modify.Wire.{Outcome, ok, panics}
use im_service_modify.Message.Body.{Message, Body, cmd_of, body_of}
use im_service_modify.Message.Creators.{
  msg_subscribe, msg_unsubscribe, msg_subscribe_room, msg_unsubscribe_room,
}
use im_service_modify.RouteServer.{
  ServerRoute, new_server_route, add_user_id, remove_user_id, add_room_id, remove_room_id,
  contain_user_id, is_user_online, contain_room_id,
}

abbrev pub AppRoute : Type 0
AppRoute = List (ℕ × ServerRoute)

abbrev route_or_new : ℕ → Option ServerRoute → ServerRoute
route_or_new appid none = new_server_route appid
route_or_new appid (some r) = r

-- The route of `FindOrAddRoute`.
unfoldable pub find_or_add_route : ℕ → AppRoute → ServerRoute
find_or_add_route appid apps = route_or_new appid (lookup appid apps)

-- `FindOrAddRoute` and a change of the route that it returns.
unfoldable pub change_route : ℕ → (ServerRoute → ServerRoute) → AppRoute → AppRoute
change_route appid f apps = insert appid (f (find_or_add_route appid apps)) apps

-- A route's answer, false if the app has none.
abbrev ask : (ServerRoute → Bool) → Option ServerRoute → Bool
ask f none = false
ask f (some r) = f r

unfoldable pub contain_app_user_id : ℕ → ℕ → AppRoute → Bool
contain_app_user_id appid uid apps = ask (contain_user_id uid) (lookup appid apps)

unfoldable pub is_app_user_online : ℕ → ℕ → AppRoute → Bool
is_app_user_online appid uid apps = ask (is_user_online uid) (lookup appid apps)

unfoldable pub contain_app_room_id : ℕ → ℕ → AppRoute → Bool
contain_app_room_id appid room_id apps = ask (contain_room_id room_id) (lookup appid apps)

-- The handlers of subscriptions. A body of another type makes the program panic.
unfoldable pub handle_subscribe : Body → AppRoute → Outcome AppRoute
handle_subscribe (Body.subscribe_message id) apps =
    ok (change_route id.appid (add_user_id id.uid (not (id.online == 0))) apps)
handle_subscribe _ apps = panics

unfoldable pub handle_unsubscribe : Body → AppRoute → Outcome AppRoute
handle_unsubscribe (Body.app_user_id id) apps =
    ok (change_route id.appid (remove_user_id id.uid) apps)
handle_unsubscribe _ apps = panics

unfoldable pub handle_subscribe_room : Body → AppRoute → Outcome AppRoute
handle_subscribe_room (Body.app_room_id id) apps =
    ok (change_route id.appid (add_room_id id.room_id) apps)
handle_subscribe_room _ apps = panics

unfoldable pub handle_unsubscribe_room : Body → AppRoute → Outcome AppRoute
handle_unsubscribe_room (Body.app_room_id id) apps =
    ok (change_route id.appid (remove_room_id id.room_id) apps)
handle_unsubscribe_room _ apps = panics

-- `HandleMessage` as far as it changes the routes; publishing does not.
unfoldable pub handle_route_message : Message → AppRoute → Outcome AppRoute
handle_route_message m apps =
    if cmd_of m == msg_subscribe
    then handle_subscribe (body_of m) apps
    else if cmd_of m == msg_unsubscribe
    then handle_unsubscribe (body_of m) apps
    else if cmd_of m == msg_subscribe_room
    then handle_subscribe_room (body_of m) apps
    else if cmd_of m == msg_unsubscribe_room
    then handle_unsubscribe_room (body_of m) apps
    else ok apps
