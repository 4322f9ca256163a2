-- ===== src/Message/Fixed.antt =====
-- serverCommon/model/message.go, serverCommon/model/route_message.go and `SyncCursor` of
-- ServerIMS/model/storage_message.go: the messages of a fixed length. `MessageACK` has no test of
-- its length: of a short body it keeps the zero of a new value.
use im_service_modify.Prelude.{ℕ, ◌++◌, ltb, length, if◌then◌else◌}
use im_service_modify.Wire.{Bytes, write, read, Outcome, ok, refused}

pub record MessageAck : Type 0 where
  pub seq : ℕ

unfoldable pub to_data_message_ack : MessageAck → Bytes
to_data_message_ack m = write 4 m.seq

unfoldable pub from_data_message_ack : Bytes → Outcome MessageAck
from_data_message_ack buff = let (seq, _) = read 4 0 buff in ok (record { seq = seq })

pub record MessageUnreadCount : Type 0 where
  pub count : ℕ

unfoldable pub to_data_message_unread_count : MessageUnreadCount → Bytes
to_data_message_unread_count m = write 4 m.count

unfoldable pub from_data_message_unread_count : Bytes → Outcome MessageUnreadCount
from_data_message_unread_count buff =
    if ltb (length buff) 4
    then refused
    else (let (count, _) = read 4 0 buff in ok (record { count = count }))

pub record Room : Type 0 where
  pub id : ℕ

unfoldable pub to_data_room : Room → Bytes
to_data_room m = write 8 m.id

unfoldable pub from_data_room : Bytes → Outcome Room
from_data_room buff =
    if ltb (length buff) 8
    then refused
    else (let (id, _) = read 8 0 buff in ok (record { id = id }))

pub record AppUserId : Type 0 where
  pub appid : ℕ
  pub uid : ℕ

unfoldable pub to_data_app_user_id : AppUserId → Bytes
to_data_app_user_id m = write 8 m.appid ++ write 8 m.uid

unfoldable pub from_data_app_user_id : Bytes → Outcome AppUserId
from_data_app_user_id buff =
    if ltb (length buff) 16
    then refused
    else (let (appid, b1) = read 8 0 buff in
        let (uid, _) = read 8 0 b1 in ok (record { appid = appid; uid = uid }))

pub record AppRoomId : Type 0 where
  pub appid : ℕ
  pub room_id : ℕ

unfoldable pub to_data_app_room_id : AppRoomId → Bytes
to_data_app_room_id m = write 8 m.appid ++ write 8 m.room_id

unfoldable pub from_data_app_room_id : Bytes → Outcome AppRoomId
from_data_app_room_id buff =
    if ltb (length buff) 16
    then refused
    else (let (appid, b1) = read 8 0 buff in
        let (room_id, _) = read 8 0 b1 in ok (record { appid = appid; room_id = room_id }))

pub record AppGroupMemberId : Type 0 where
  pub appid : ℕ
  pub gid : ℕ
  pub uid : ℕ

unfoldable pub to_data_app_group_member_id : AppGroupMemberId → Bytes
to_data_app_group_member_id m = write 8 m.appid ++ (write 8 m.gid ++ write 8 m.uid)

unfoldable pub from_data_app_group_member_id : Bytes → Outcome AppGroupMemberId
from_data_app_group_member_id buff =
    if ltb (length buff) 24
    then refused
    else (let (appid, b1) = read 8 0 buff in
        let (gid, b2) = read 8 0 b1 in
        let (uid, _) = read 8 0 b2 in ok (record { appid = appid; gid = gid; uid = uid }))

pub record SyncKey : Type 0 where
  pub sync_key : ℕ

unfoldable pub to_data_sync_key : SyncKey → Bytes
to_data_sync_key m = write 8 m.sync_key

unfoldable pub from_data_sync_key : Bytes → Outcome SyncKey
from_data_sync_key buff =
    if ltb (length buff) 8
    then refused
    else (let (sync_key, _) = read 8 0 buff in ok (record { sync_key = sync_key }))

pub record GroupSyncKey : Type 0 where
  pub group_id : ℕ
  pub sync_key : ℕ

unfoldable pub to_data_group_sync_key : GroupSyncKey → Bytes
to_data_group_sync_key m = write 8 m.group_id ++ write 8 m.sync_key

unfoldable pub from_data_group_sync_key : Bytes → Outcome GroupSyncKey
from_data_group_sync_key buff =
    if ltb (length buff) 16
    then refused
    else (let (group_id, b1) = read 8 0 buff in
        let (sync_key, _) = read 8 0 b1 in ok (record { group_id = group_id; sync_key = sync_key }))

pub record AuthenticationStatus : Type 0 where
  pub status : ℕ

unfoldable pub to_data_authentication_status : AuthenticationStatus → Bytes
to_data_authentication_status m = write 4 m.status

unfoldable pub from_data_authentication_status : Bytes → Outcome AuthenticationStatus
from_data_authentication_status buff =
    if ltb (length buff) 4
    then refused
    else (let (status, _) = read 4 0 buff in ok (record { status = status }))

pub record SubscribeMessage : Type 0 where
  pub appid : ℕ
  pub uid : ℕ
  pub online : ℕ

unfoldable pub to_data_subscribe_message : SubscribeMessage → Bytes
to_data_subscribe_message m = write 8 m.appid ++ (write 8 m.uid ++ write 1 m.online)

unfoldable pub from_data_subscribe_message : Bytes → Outcome SubscribeMessage
from_data_subscribe_message buff =
    if ltb (length buff) 17
    then refused
    else (let (appid, b1) = read 8 0 buff in
        let (uid, b2) = read 8 0 b1 in
        let (online, _) = read 1 0 b2 in ok (record { appid = appid; uid = uid; online = online }))

pub record SyncCursor : Type 0 where
  pub msgid : ℕ

unfoldable pub to_data_sync_cursor : SyncCursor → Bytes
to_data_sync_cursor m = write 8 m.msgid

unfoldable pub from_data_sync_cursor : Bytes → Outcome SyncCursor
from_data_sync_cursor buff =
    if ltb (length buff) 8
    then refused
    else (let (msgid, _) = read 8 0 buff in ok (record { msgid = msgid }))
