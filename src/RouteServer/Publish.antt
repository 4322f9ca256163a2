-- ===== src/RouteServer/Publish.antt =====
-- ServerIMR/model/Client.go and ServerIMR/model/ClientManger.go: what the route server does with a
-- message that an instance publishes. The instances that are connected are a map from a number to
-- their routes. An answer is the pushes, which go to Redis, and the messages put into the channels
-- of instances, by their numbers.
use im_service_modify.Prelude.{
  ◌/◌, ℕ, Bool, true, false, not, ◌&&◌, ◌||◌, Option, none, some, List, [], ◌∷◌, if◌then◌else◌,
  ◌==◌, ◌%◌,
}
use im_service_modify.RouteServer.Instance.{
  AppRoute, contain_app_user_id, is_app_user_online, contain_app_room_id,
}
use im_service_modify.Message.Body.{Message, message, Body, ptr, cmd_of, flag_of, body_of}
use im_service_modify.Message.Text.{ImMessage, CustomerMessage}
use im_service_modify.Message.Creators.{
  msg_publish, msg_publish_group, msg_publish_room, msg_im, msg_group_im, msg_customer,
  msg_customer_support, msg_system, msg_sync_group_notify,
}
use im_service_modify.Wire.{◌>>=◌, Bytes, Outcome, ok, panics}

abbrev pub Instances : Type 0
Instances = List (ℕ × AppRoute)

-- The calls of ServerIMR/model/ClientPush.go, with their arguments.
pub data Push : Type 0 where
  peer_push : ℕ → ImMessage → Push
  group_push : ℕ → List ℕ → ImMessage → Push
  customer_push : ℕ → ℕ → CustomerMessage → ℕ → Push
  system_push : ℕ → ℕ → Bytes → Push

abbrev pub Answer : Type 0
Answer = List Push × List (ℕ × Message)

-- The loop of `FindClientSet` and `FindRoomClientSet`.
unfoldable pub select : (AppRoute → Bool) → Instances → Instances
select f [] = []
select f ((c, apps) ∷ cs) = let rest = select f cs in if f apps then (c, apps) ∷ rest else rest

abbrev pub find_app_clients : ℕ → ℕ → Instances → Instances
find_app_clients appid uid cs = select (contain_app_user_id appid uid) cs

abbrev pub find_app_room_clients : ℕ → ℕ → Instances → Instances
find_app_room_clients appid room_id cs = select (contain_app_room_id appid room_id) cs

-- Whether the user is online at one of the instances: `IsUserOnline`, and the loop of
-- `HandlePublish`.
unfoldable pub is_online_anywhere : ℕ → ℕ → Instances → Bool
is_online_anywhere appid uid [] = false
is_online_anywhere appid uid ((c, apps) ∷ cs) =
    is_app_user_online appid uid apps || is_online_anywhere appid uid cs

-- The message to every instance but the one that published it.
unfoldable pub send_others : ℕ → Message → Instances → List (ℕ × Message)
send_others self m [] = []
send_others self m ((c, apps) ∷ cs) =
    let rest = send_others self m cs in if self == c then rest else (c, m) ∷ rest

-- The pushes for a user who is not online. A body of another type makes the program panic.
abbrev im_of : Body → Outcome ImMessage
im_of (Body.im_message im) = ok im
im_of _ = panics

abbrev customer_of : Body → Outcome CustomerMessage
customer_of (Body.customer_message m) = ok m
customer_of _ = panics

abbrev system_of : Body → Outcome Bytes
system_of (Body.system_message text) = ok text
system_of _ = panics

abbrev system_pushes : Bool → ℕ → ℕ → Bytes → List Push
system_pushes true appid receiver text = system_push appid receiver text ∷ []
system_pushes false appid receiver text = []

unfoldable pub offline_pushes : Bool → ℕ → ℕ → Message → Outcome (List Push)
offline_pushes push_system appid receiver m =
    if cmd_of m == msg_im
    then (im_of (body_of m) >>= λ im. ok (peer_push appid im ∷ []))
    else if cmd_of m == msg_group_im
    then (im_of (body_of m) >>= λ im. ok (group_push appid (receiver ∷ []) im ∷ []))
    else if cmd_of m == msg_customer || cmd_of m == msg_customer_support
    then (customer_of (body_of m) >>= λ c. ok (customer_push appid receiver c (cmd_of m) ∷ []))
    else if cmd_of m == msg_system
    then (system_of (body_of m) >>= λ text. ok (system_pushes push_system appid receiver text))
    else ok []

-- Whether the message is persistent, so that clients fetch it themselves.
unfoldable pub is_persistent : Message → Bool
is_persistent m =
    (cmd_of m == msg_im
      || (cmd_of m == msg_group_im
          || (cmd_of m == msg_customer
              || (cmd_of m == msg_customer_support || cmd_of m == msg_system))))
    && (flag_of m / 2 % 2 == 0)

-- `HandlePublish` of the instance `self`, with `Is_push_system` of the configuration.
unfoldable pub handle_publish : Bool → ℕ → Body → Instances → Outcome Answer
handle_publish push_system self (Body.app_message appid receiver msgid device_id timestamp (ptr m))
      cs =
    let s = find_app_clients appid receiver cs in
    let amsg = Body.app_message appid receiver msgid device_id timestamp (ptr m) in
    do
      pushes ←
          (if is_online_anywhere appid receiver s
            then ok []
            else offline_pushes push_system appid receiver m)
      ok (
        pushes,
        if is_persistent m then [] else send_others self (message msg_publish 0 0 0 amsg) s,
      )
handle_publish push_system self _ cs = panics

unfoldable pub handle_publish_room : ℕ → Body → Instances → Outcome Answer
handle_publish_room self (Body.app_message appid receiver msgid device_id timestamp (ptr m)) cs =
    let amsg = Body.app_message appid receiver msgid device_id timestamp (ptr m) in
    ok (
      [],
      send_others self (message msg_publish_room 0 0 0 amsg)
          (find_app_room_clients appid receiver cs),
    )
handle_publish_room self _ cs = panics

-- The members of a group who are not online, without the sender.
unfoldable pub offline_members : ℕ → ℕ → List ℕ → Instances → List ℕ
offline_members appid sender [] cs = []
offline_members appid sender (uid ∷ uids) cs =
    let rest = offline_members appid sender uids cs in
    if not (sender == uid) && not (is_online_anywhere appid uid cs) then uid ∷ rest else rest

abbrev pushes_to : ℕ → ImMessage → List ℕ → List Push
pushes_to appid im [] = []
pushes_to appid im (uid ∷ uids) = group_push appid (uid ∷ uids) im ∷ []

-- `members` is what `FindGroup` returns: the members of the group, if there is one.
abbrev group_pushes : ℕ → Message → Option (List ℕ) → Instances → Outcome (List Push)
group_pushes appid m none cs = ok []
group_pushes appid m (some members) cs =
    if cmd_of m == msg_group_im
    then (im_of (body_of m) >>= λ im.
        ok (pushes_to appid im (offline_members appid im.sender members cs)))
    else ok []

unfoldable pub handle_publish_group : ℕ → Body → Option (List ℕ) → Instances → Outcome Answer
handle_publish_group self (Body.app_message appid receiver msgid device_id timestamp (ptr m))
      members cs =
    let amsg = Body.app_message appid receiver msgid device_id timestamp (ptr m) in
    group_pushes appid m members cs >>= λ pushes. ok (
      pushes,
      if cmd_of m == msg_sync_group_notify
          then send_others self (message msg_publish_group 0 0 0 amsg) cs
          else [],
    )
handle_publish_group self _ members cs = panics
