-- ===== src/Channel/Resubscribe.antt =====
-- `ReSubscribe` and `ReSubscribeRoom` of ServerIM/model/channel.go: what a channel sends first on a
-- new connection.
use im_service_modify.Message.Fixed.{AppRoomId}
use im_service_modify.Message.Body.{message, Body, Message}
use im_service_modify.Message.Creators.{msg_subscribe_room}
use im_service_modify.Channel.Counts.{online_count}
use im_service_modify.Channel.{flag_number, route_message, subscribe_to, Subscriber, Channel}
use im_service_modify.Prelude.{length, ◌+◌, ◌++◌, ◌∷◌, [], ltb, ℕ, List}

-- The copy of the subscribers, without rooms.
unfoldable pub get_all_subscriber : List (ℕ × Subscriber) → List (ℕ × Subscriber)
get_all_subscriber [] = []
get_all_subscriber ((appid, s) ∷ subs) =
    (appid, record s { room_ids = [] }) ∷ get_all_subscriber subs

-- The messages for the users of one app, for all, and for the rooms.
unfoldable pub user_messages : ℕ → List (ℕ × ℕ) → List Message
user_messages appid [] = []
user_messages appid ((uid, count) ∷ uids) =
    subscribe_to appid uid (flag_number (ltb 0 (online_count count))) ∷ user_messages appid uids

unfoldable pub subscribe_messages : List (ℕ × Subscriber) → List Message
subscribe_messages [] = []
subscribe_messages ((appid, s) ∷ subs) = user_messages appid s.uids ++ subscribe_messages subs

unfoldable pub app_room_ids : ℕ → List (ℕ × ℕ) → List AppRoomId
app_room_ids appid [] = []
app_room_ids appid ((room_id, count) ∷ rooms) =
    record { appid = appid; room_id = room_id } ∷ app_room_ids appid rooms

unfoldable pub get_all_room_subscriber : List (ℕ × Subscriber) → List AppRoomId
get_all_room_subscriber [] = []
get_all_room_subscriber ((appid, s) ∷ subs) =
    app_room_ids appid s.room_ids ++ get_all_room_subscriber subs

unfoldable pub room_messages : List AppRoomId → List Message
room_messages [] = []
room_messages (id ∷ ids) =
    route_message msg_subscribe_room (Body.app_room_id id) ∷ room_messages ids

-- `msg.Seq = seq`
abbrev pub set_seq : ℕ → Message → Message
set_seq n (message cmd seq version flag body) = message cmd n version flag body

-- Messages sent one after the other get the numbers after `seq`.
unfoldable pub number_from : ℕ → List Message → List Message
number_from seq [] = []
number_from seq (m ∷ ms) = set_seq (seq + 1) m ∷ number_from (seq + 1) ms

-- The number after the call, and the messages that it sends.
unfoldable pub resubscribe : Channel → ℕ → ℕ × List Message
resubscribe c seq =
    let ms = subscribe_messages (get_all_subscriber c.subscribers) in
    (seq + length ms, number_from seq ms)

unfoldable pub resubscribe_room : Channel → ℕ → ℕ × List Message
resubscribe_room c seq =
    let ms = room_messages (get_all_room_subscriber c.subscribers) in
    (seq + length ms, number_from seq ms)
