-- ===== src/Channel.antt =====
-- ServerIM/model/channel.go: how an instance of ServerIM counts its users' and rooms' connections
-- and tells its route server when the first comes or the last goes. The Go channel `wt` is the list
-- of the messages in it. A call changes the counts under the mutex, and puts its message into `wt`
-- only once it has left it: `subscribe` and the others are the calls up to there and return the
-- message, if any, that is still to be put, and `enqueue` is the rest.
use im_service_modify.Channel.Counts.{pack, total_count, online_count}
use im_service_modify.Message.Creators.{
  msg_unsubscribe_room, msg_subscribe_room, msg_unsubscribe, msg_subscribe,
}
use im_service_modify.Message.Body.{message, Body, Message}
use im_service_modify.Prelude.{
  true, false, none, ◌&&◌, ◌-◌, ltb, ◌==◌, if◌then◌else◌, some, ◌^◌, ◌%◌, ◌∷◌, ◌+◌, ◌++◌, Bool, ℕ,
  Option, [], List,
}
use im_service_modify.Maps.{lookup, insert, remove}
pub mod Counts
pub mod View
pub mod Calls
pub mod SendLaws
pub mod CallLaws
pub mod CloseLaws
pub mod RoomLaws
pub mod Resubscribe
pub mod System
pub mod MapLaws
pub mod ResubscribeLaws
pub mod HandledLaws
pub mod Apart
pub mod Convergence
pub mod Delivering
pub mod SystemLaws

pub record Subscriber : Type 0 where
  pub uids : List (ℕ × ℕ)
  pub room_ids : List (ℕ × ℕ)

abbrev pub new_subscriber : Subscriber
new_subscriber = record { uids = []; room_ids = [] }

pub record Channel : Type 0 where
  pub subscribers : List (ℕ × Subscriber)
  pub wt : List Message

abbrev pub new_channel : Channel
new_channel = record { subscribers = []; wt = [] }

-- A missing key of a Go map of numbers reads as 0.
abbrev pub number_or_zero : Option ℕ → ℕ
number_or_zero none = 0
number_or_zero (some n) = n

abbrev subscriber_or_new : Option Subscriber → Subscriber
subscriber_or_new none = new_subscriber
subscriber_or_new (some s) = s

-- `channel.subscribers[appid]`, made if it is missing.
unfoldable pub find_or_add_subscriber : ℕ → Channel → Subscriber
find_or_add_subscriber appid c = subscriber_or_new (lookup appid c.subscribers)

abbrev pub set_subscriber : ℕ → Subscriber → Channel → Channel
set_subscriber appid s c = record c { subscribers = insert appid s c.subscribers }

-- `channel.wt <- msg`, which waits until there is room.
unfoldable pub enqueue : Message → Channel → Channel
enqueue m c = record c { wt = c.wt ++ m ∷ [] }

-- The subscriber's users after a connection opens to a user with the packed count `count`.
unfoldable pub add_connection : ℕ → Bool → ℕ → List (ℕ × ℕ) → List (ℕ × ℕ)
add_connection uid online count uids =
    let c2 = if online then (online_count count + 1) % 2 ^ 64 else online_count count in
    insert uid (pack c2 (total_count count + 1)) uids

-- The counts before the call, total and online, and the channel after it.
unfoldable pub add_subscribe : ℕ → ℕ → Bool → Channel → ℕ × ℕ × Channel
add_subscribe appid uid online c =
    let s = find_or_add_subscriber appid c in
    let count = number_or_zero (lookup uid s.uids) in
    (
      total_count count,
      online_count count,
      set_subscriber appid (record s { uids = add_connection uid online count s.uids }) c,
    )

-- The subscriber's users after a connection with the packed count `count` closes.
unfoldable pub remove_connection : ℕ → Bool → ℕ → List (ℕ × ℕ) → List (ℕ × ℕ)
remove_connection uid online count uids =
    let c2 = if online then (online_count count + (2 ^ 64 - 1)) % 2 ^ 64 else online_count count in
    let c1 = total_count count - 1 in
    if ltb 0 c1 then insert uid (pack c2 c1) uids else remove uid uids

abbrev remove_user_connection : ℕ → ℕ → Bool → Option ℕ → Subscriber → Channel → ℕ × ℕ × Channel
remove_user_connection appid uid online none s c = (0, 0, c)
remove_user_connection appid uid online (some count) s c = (
  total_count count,
  online_count count,
  set_subscriber appid (record s { uids = remove_connection uid online count s.uids }) c,
)

abbrev remove_subscribe_from : ℕ → ℕ → Bool → Option Subscriber → Channel → ℕ × ℕ × Channel
remove_subscribe_from appid uid online none c = (0, 0, c)
remove_subscribe_from appid uid online (some s) c =
    remove_user_connection appid uid online (lookup uid s.uids) s c

unfoldable pub remove_subscribe : ℕ → ℕ → Bool → Channel → ℕ × ℕ × Channel
remove_subscribe appid uid online c =
    remove_subscribe_from appid uid online (lookup appid c.subscribers) c

-- Messages of the channel have no version and no flag, their `Seq` is set when they are sent.
abbrev pub route_message : ℕ → Body → Message
route_message cmd body = message cmd 0 0 0 body

abbrev pub subscribe_to : ℕ → ℕ → ℕ → Message
subscribe_to appid uid online =
    route_message msg_subscribe
      (Body.subscribe_message (record { appid = appid; uid = uid; online = online }))

abbrev pub unsubscribe_from : ℕ → ℕ → Message
unsubscribe_from appid uid =
    route_message msg_unsubscribe (Body.app_user_id (record { appid = appid; uid = uid }))

abbrev pub subscribe_room_to : ℕ → ℕ → Message
subscribe_room_to appid room_id =
    route_message msg_subscribe_room
      (Body.app_room_id (record { appid = appid; room_id = room_id }))

abbrev pub unsubscribe_room_from : ℕ → ℕ → Message
unsubscribe_room_from appid room_id =
    route_message msg_unsubscribe_room
      (Body.app_room_id (record { appid = appid; room_id = room_id }))

abbrev pub flag_number : Bool → ℕ
flag_number true = 1
flag_number false = 0

-- The message that a call is still to put into `wt`, if any, and the channel as the call left it.
abbrev pub Called : Type 0
Called = List Message × Channel

unfoldable pub subscribe : ℕ → ℕ → Bool → Channel → Called
subscribe appid uid online c =
    let (count, online_before, after) = add_subscribe appid uid online c in
    if count == 0
    then (subscribe_to appid uid (flag_number online) ∷ [], after)
    else if online_before == 0 && online
    then (subscribe_to appid uid 1 ∷ [], after)
    else ([], after)

unfoldable pub unsubscribe : ℕ → ℕ → Bool → Channel → Called
unsubscribe appid uid online c =
    let (count, online_before, after) = remove_subscribe appid uid online c in
    if count == 1
    then (unsubscribe_from appid uid ∷ [], after)
    else if ltb 1 count && (online_before == 1 && online)
    then (subscribe_to appid uid 0 ∷ [], after)
    else ([], after)

-- The count before the call and the channel after it.
unfoldable pub add_subscribe_room : ℕ → ℕ → Channel → ℕ × Channel
add_subscribe_room appid room_id c =
    let s = find_or_add_subscriber appid c in
    let count = number_or_zero (lookup room_id s.room_ids) in
    (
      count,
      set_subscriber appid
          (record s { room_ids = insert room_id ((count + 1) % 2 ^ 64) s.room_ids }) c,
    )

unfoldable pub remove_room_count : ℕ → ℕ → List (ℕ × ℕ) → List (ℕ × ℕ)
remove_room_count room_id count room_ids =
    if ltb 1 count then insert room_id (count - 1) room_ids else remove room_id room_ids

abbrev remove_room_connection : ℕ → ℕ → Option ℕ → Subscriber → Channel → ℕ × Channel
remove_room_connection appid room_id none s c = (0, c)
remove_room_connection appid room_id (some count) s c = (
  count,
  set_subscriber appid (record s { room_ids = remove_room_count room_id count s.room_ids }) c,
)

abbrev remove_subscribe_room_from : ℕ → ℕ → Option Subscriber → Channel → ℕ × Channel
remove_subscribe_room_from appid room_id none c = (0, c)
remove_subscribe_room_from appid room_id (some s) c =
    remove_room_connection appid room_id (lookup room_id s.room_ids) s c

unfoldable pub remove_subscribe_room : ℕ → ℕ → Channel → ℕ × Channel
remove_subscribe_room appid room_id c =
    remove_subscribe_room_from appid room_id (lookup appid c.subscribers) c

unfoldable pub subscribe_room : ℕ → ℕ → Channel → Called
subscribe_room appid room_id c =
    let (count, after) = add_subscribe_room appid room_id c in
    if count == 0 then (subscribe_room_to appid room_id ∷ [], after) else ([], after)

unfoldable pub unsubscribe_room : ℕ → ℕ → Channel → Called
unsubscribe_room appid room_id c =
    let (count, after) = remove_subscribe_room appid room_id c in
    if count == 1 then (unsubscribe_room_from appid room_id ∷ [], after) else ([], after)
