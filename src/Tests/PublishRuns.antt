-- ===== src/Tests/PublishRuns.antt =====
-- A message published to a user and to a room at two instances.
use im_service_modify.Prelude.{◌≡◌, refl, true, not, ◌&&◌, [], ◌∷◌, if◌then◌else◌, ◌==◌}
use im_service_modify.Maps.{lookup, insert, IsMap}
use im_service_modify.Message.Body.{message, Body, ptr, Message}
use im_service_modify.Message.Creators.{msg_im, msg_publish_room}
use im_service_modify.Wire.{ok}
use im_service_modify.RouteServer.{add_user_id, add_room_id, add_int, contains, contain_room_id}
use im_service_modify.RouteServer.Instance.{
  AppRoute, change_route, find_or_add_route, contain_app_room_id,
}
use im_service_modify.RouteServer.Publish.{Instances, select, send_others, handle_publish_room}
use im_service_modify.RouteServer.PublishLaws.{sent_to, holds_for, handle_publish_room-recipients}

abbrev with_user : AppRoute
with_user = change_route 7 (add_user_id 42 true) (change_route 7 (add_room_id 5) [])

abbrev two_instances : Instances
two_instances = (1, with_user) ∷ (2, with_user) ∷ []

two_instances-IsMap : IsMap two_instances
unfolding IsMap lookup
two_instances-IsMap = (refl, (refl, tt))

-- A chat message that is not to be kept.
abbrev unkept : Message
unkept = message msg_im 1 1 2 (
    Body.im_message
      (record { sender = 1; receiver = 42; timestamp = 5; msgid = 0; content = 104 ∷ 105 ∷ [] }))

abbrev published : Body
published = Body.app_message 7 42 0 3 5 (ptr unkept)

abbrev to_room : Body
to_room = Body.app_message 7 5 0 3 5 (ptr unkept)

to_room-answer :
    handle_publish_room 1 to_room two_instances
    ≡ ok ([], (2, message msg_publish_room 0 0 0 to_room) ∷ [])
unfolding handle_publish_room select send_others contain_app_room_id contain_room_id change_route
    find_or_add_route add_user_id add_room_id add_int contains lookup insert
to_room-answer = refl

handle_publish_room-recipients_example :
    sent_to 2 ((2, message msg_publish_room 0 0 0 to_room) ∷ []) ≡ (
      if not (2 == 1) && holds_for (contain_app_room_id 7 5) (lookup 2 two_instances)
      then message msg_publish_room 0 0 0 to_room ∷ []
      else [])
handle_publish_room-recipients_example =
    handle_publish_room-recipients 1 7 5 0 3 5 2 unkept two_instances []
      ((2, message msg_publish_room 0 0 0 to_room) ∷ []) two_instances-IsMap to_room-answer
