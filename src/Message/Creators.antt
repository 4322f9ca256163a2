-- ===== src/Message/Creators.antt =====
-- The command numbers, and the tables that `init` of serverCommon/model/message.go,
-- serverCommon/model/route_message.go and ServerIMS/model/storage_message.go fill: which type a
-- command's body has, and which commands a client may send. The tables are those of the program
-- ServerIMS, which links all three files.
use im_service_modify.Prelude.{
  ℕ, Bool, false, ◌||◌, List, [], ◌∷◌, ◌++◌, ◌==◌, if◌then◌else◌, Option, none, some,
}
use im_service_modify.Message.Body.{Body}

abbrev pub msg_auth_status : ℕ
msg_auth_status = 3

abbrev pub msg_im : ℕ
msg_im = 4

abbrev pub msg_ack : ℕ
msg_ack = 5

abbrev pub msg_group_notification : ℕ
msg_group_notification = 7

abbrev pub msg_group_im : ℕ
msg_group_im = 8

abbrev pub msg_ping : ℕ
msg_ping = 13

abbrev pub msg_pong : ℕ
msg_pong = 14

abbrev pub msg_auth_token : ℕ
msg_auth_token = 15

abbrev pub msg_rt : ℕ
msg_rt = 17

abbrev pub msg_enter_room : ℕ
msg_enter_room = 18

abbrev pub msg_leave_room : ℕ
msg_leave_room = 19

abbrev pub msg_room_im : ℕ
msg_room_im = 20

abbrev pub msg_system : ℕ
msg_system = 21

abbrev pub msg_unread_count : ℕ
msg_unread_count = 22

abbrev pub msg_customer_service : ℕ
msg_customer_service = 23

abbrev pub msg_customer : ℕ
msg_customer = 24

abbrev pub msg_customer_support : ℕ
msg_customer_support = 25

abbrev pub msg_sync : ℕ
msg_sync = 26

abbrev pub msg_sync_begin : ℕ
msg_sync_begin = 27

abbrev pub msg_sync_end : ℕ
msg_sync_end = 28

abbrev pub msg_sync_notify : ℕ
msg_sync_notify = 29

abbrev pub msg_sync_group : ℕ
msg_sync_group = 30

abbrev pub msg_sync_group_begin : ℕ
msg_sync_group_begin = 31

abbrev pub msg_sync_group_end : ℕ
msg_sync_group_end = 32

abbrev pub msg_sync_group_notify : ℕ
msg_sync_group_notify = 33

abbrev pub msg_sync_key : ℕ
msg_sync_key = 34

abbrev pub msg_group_sync_key : ℕ
msg_group_sync_key = 35

abbrev pub msg_notification : ℕ
msg_notification = 36

abbrev pub msg_voip_control : ℕ
msg_voip_control = 64

abbrev pub msg_subscribe : ℕ
msg_subscribe = 130

abbrev pub msg_unsubscribe : ℕ
msg_unsubscribe = 131

abbrev pub msg_publish : ℕ
msg_publish = 132

abbrev pub msg_publish_group : ℕ
msg_publish_group = 135

abbrev pub msg_subscribe_room : ℕ
msg_subscribe_room = 136

abbrev pub msg_unsubscribe_room : ℕ
msg_unsubscribe_room = 137

abbrev pub msg_publish_room : ℕ
msg_publish_room = 138

abbrev pub msg_storage_sync_begin : ℕ
msg_storage_sync_begin = 220

abbrev pub msg_storage_sync_message : ℕ
msg_storage_sync_message = 221

abbrev pub msg_storage_sync_message_batch : ℕ
msg_storage_sync_message_batch = 222

abbrev pub msg_offline_v4 : ℕ
msg_offline_v4 = 248

abbrev pub msg_offline_v3 : ℕ
msg_offline_v3 = 249

abbrev pub msg_offline_v2 : ℕ
msg_offline_v2 = 250

abbrev pub msg_pending_group_message : ℕ
msg_pending_group_message = 251

abbrev pub msg_group_im_list : ℕ
msg_group_im_list = 252

abbrev pub msg_group_ack_in : ℕ
msg_group_ack_in = 253

abbrev pub msg_offline : ℕ
msg_offline = 254

abbrev pub msg_ack_in : ℕ
msg_ack_in = 255

-- The types of the bodies.
pub data Kind : Type 0 where
  ignore_message im_message system_message group_notification message_ack authentication_token
        rt_message room room_message message_unread_count customer_message sync_key group_sync_key
        voip_control authentication_status subscribe_message app_user_id app_room_id sync_cursor
        offline_message1 offline_message2 offline_message3 offline_message4 group_offline_message
        pending_group_message app_message emessage message_batch :
      Kind

-- The type of a body, if it has one.
unfoldable pub kind_of : Body → Option Kind
kind_of Body.nil = none
kind_of Body.ignore_message = some Kind.ignore_message
kind_of (Body.im_message a) = some Kind.im_message
kind_of (Body.system_message a) = some Kind.system_message
kind_of (Body.group_notification a) = some Kind.group_notification
kind_of (Body.message_ack a) = some Kind.message_ack
kind_of (Body.authentication_token a) = some Kind.authentication_token
kind_of (Body.rt_message a) = some Kind.rt_message
kind_of (Body.room a) = some Kind.room
kind_of (Body.room_message a) = some Kind.room_message
kind_of (Body.message_unread_count a) = some Kind.message_unread_count
kind_of (Body.customer_message a) = some Kind.customer_message
kind_of (Body.sync_key a) = some Kind.sync_key
kind_of (Body.group_sync_key a) = some Kind.group_sync_key
kind_of (Body.voip_control a) = some Kind.voip_control
kind_of (Body.authentication_status a) = some Kind.authentication_status
kind_of (Body.subscribe_message a) = some Kind.subscribe_message
kind_of (Body.app_user_id a) = some Kind.app_user_id
kind_of (Body.app_room_id a) = some Kind.app_room_id
kind_of (Body.sync_cursor a) = some Kind.sync_cursor
kind_of (Body.offline_message1 a) = some Kind.offline_message1
kind_of (Body.offline_message2 a) = some Kind.offline_message2
kind_of (Body.offline_message3 a) = some Kind.offline_message3
kind_of (Body.offline_message4 a) = some Kind.offline_message4
kind_of (Body.group_offline_message a) = some Kind.group_offline_message
kind_of (Body.pending_group_message a) = some Kind.pending_group_message
kind_of (Body.app_message a b c d e f) = some Kind.app_message
kind_of (Body.emessage a b c) = some Kind.emessage
kind_of (Body.message_batch a b c) = some Kind.message_batch

-- `Message_creators` as each `init` fills it.
abbrev common_creators : List (ℕ × Kind)
common_creators =
    (msg_ack, Kind.message_ack)
    ∷ (msg_group_notification, Kind.group_notification)
    ∷ (msg_auth_token, Kind.authentication_token)
    ∷ (msg_rt, Kind.rt_message)
    ∷ (msg_enter_room, Kind.room)
    ∷ (msg_leave_room, Kind.room)
    ∷ (msg_room_im, Kind.room_message)
    ∷ (msg_system, Kind.system_message)
    ∷ (msg_unread_count, Kind.message_unread_count)
    ∷ (msg_customer_service, Kind.ignore_message)
    ∷ (msg_customer, Kind.customer_message)
    ∷ (msg_customer_support, Kind.customer_message)
    ∷ (msg_sync, Kind.sync_key)
    ∷ (msg_sync_begin, Kind.sync_key)
    ∷ (msg_sync_end, Kind.sync_key)
    ∷ (msg_sync_notify, Kind.sync_key)
    ∷ (msg_sync_key, Kind.sync_key)
    ∷ (msg_sync_group, Kind.group_sync_key)
    ∷ (msg_sync_group_begin, Kind.group_sync_key)
    ∷ (msg_sync_group_end, Kind.group_sync_key)
    ∷ (msg_sync_group_notify, Kind.group_sync_key)
    ∷ (msg_group_sync_key, Kind.group_sync_key)
    ∷ (msg_notification, Kind.system_message)
    ∷ (msg_voip_control, Kind.voip_control)
    ∷ (msg_auth_status, Kind.authentication_status)
    ∷ []

abbrev route_creators : List (ℕ × Kind)
route_creators =
    (msg_subscribe, Kind.subscribe_message)
    ∷ (msg_unsubscribe, Kind.app_user_id)
    ∷ (msg_publish, Kind.app_message)
    ∷ (msg_publish_group, Kind.app_message)
    ∷ (msg_subscribe_room, Kind.app_room_id)
    ∷ (msg_unsubscribe_room, Kind.app_room_id)
    ∷ (msg_publish_room, Kind.app_message)
    ∷ []

abbrev storage_creators : List (ℕ × Kind)
storage_creators =
    (msg_offline_v4, Kind.offline_message4)
    ∷ (msg_offline_v3, Kind.offline_message3)
    ∷ (msg_offline_v2, Kind.offline_message2)
    ∷ (msg_pending_group_message, Kind.pending_group_message)
    ∷ (msg_group_im_list, Kind.group_offline_message)
    ∷ (msg_group_ack_in, Kind.ignore_message)
    ∷ (msg_offline, Kind.offline_message1)
    ∷ (msg_ack_in, Kind.ignore_message)
    ∷ (msg_storage_sync_begin, Kind.sync_cursor)
    ∷ (msg_storage_sync_message, Kind.emessage)
    ∷ (msg_storage_sync_message_batch, Kind.message_batch)
    ∷ []

-- `vmessage_creators`
abbrev version_creators : List (ℕ × Kind)
version_creators = (msg_group_im, Kind.im_message) ∷ (msg_im, Kind.im_message) ∷ []

-- Reading a map with distinct keys.
abbrev find_creator : ℕ → List (ℕ × Kind) → Option Kind
find_creator cmd [] = none
find_creator cmd ((c, k) ∷ rest) = if c == cmd then some k else find_creator cmd rest

-- `Message_creators` is asked before `vmessage_creators`.
unfoldable pub creator : ℕ → Option Kind
creator cmd = elim (find_creator cmd (common_creators ++ (route_creators ++ storage_creators))) [
  | some k ↦ some k
  | none ↦ find_creator cmd version_creators
]

abbrev pub external_list : List ℕ
external_list =
    msg_auth_token ∷ msg_im ∷ msg_ack ∷ msg_group_im ∷ msg_ping ∷ msg_pong ∷ msg_rt ∷ msg_enter_room
    ∷ msg_leave_room ∷ msg_room_im ∷ msg_unread_count ∷ msg_customer ∷ msg_customer_support
    ∷ msg_sync ∷ msg_sync_group ∷ msg_sync_key ∷ msg_group_sync_key ∷ []

abbrev pub any_eq : ℕ → List ℕ → Bool
any_eq cmd [] = false
any_eq cmd (c ∷ cs) = c == cmd || any_eq cmd cs

-- `external_messages[cmd]`
unfoldable pub is_external : ℕ → Bool
is_external cmd = any_eq cmd external_list
