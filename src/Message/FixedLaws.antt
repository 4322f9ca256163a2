-- ===== src/Message/FixedLaws.antt =====
-- The decoders of fixed-length messages undo the encoders.
use im_service_modify.Prelude.{◌^◌, ◌<◌, ◌≡◌}
use im_service_modify.Wire.{ok}
use im_service_modify.Message.Fixed.{
  MessageAck, to_data_message_ack, from_data_message_ack, MessageUnreadCount,
  to_data_message_unread_count, from_data_message_unread_count, Room, to_data_room, from_data_room,
  AppUserId, to_data_app_user_id, from_data_app_user_id, AppRoomId, to_data_app_room_id,
  from_data_app_room_id, AppGroupMemberId, to_data_app_group_member_id,
  from_data_app_group_member_id, SyncKey, to_data_sync_key, from_data_sync_key, GroupSyncKey,
  to_data_group_sync_key, from_data_group_sync_key, AuthenticationStatus,
  to_data_authentication_status, from_data_authentication_status, SubscribeMessage,
  to_data_subscribe_message, from_data_subscribe_message, SyncCursor, to_data_sync_cursor,
  from_data_sync_cursor,
}
use im_service_modify.Wire.Laws.{wire_laws}

-- The integers of MessageAck are in range.
pub record FitsMessageAck (m : MessageAck) : Type 0 where
  pub seq : m.seq < 256 ^ 4

pub from-to_data_message_ack :
    (m : MessageAck) → FitsMessageAck m → from_data_message_ack (to_data_message_ack m) ≡ ok m
unfolding from_data_message_ack to_data_message_ack
from-to_data_message_ack m f = simp (wire_laws, f.seq)

-- The integers of MessageUnreadCount are in range.
pub record FitsMessageUnreadCount (m : MessageUnreadCount) : Type 0 where
  pub count : m.count < 256 ^ 4

pub from-to_data_message_unread_count :
    (m : MessageUnreadCount)
    → FitsMessageUnreadCount m
    → from_data_message_unread_count (to_data_message_unread_count m) ≡ ok m
unfolding from_data_message_unread_count to_data_message_unread_count
from-to_data_message_unread_count m f = simp (wire_laws, f.count)

-- The integers of Room are in range.
pub record FitsRoom (m : Room) : Type 0 where
  pub id : m.id < 256 ^ 8

pub from-to_data_room : (m : Room) → FitsRoom m → from_data_room (to_data_room m) ≡ ok m
unfolding from_data_room to_data_room
from-to_data_room m f = simp (wire_laws, f.id)

-- The integers of AppUserId are in range.
pub record FitsAppUserId (m : AppUserId) : Type 0 where
  pub appid : m.appid < 256 ^ 8
  pub uid : m.uid < 256 ^ 8

pub from-to_data_app_user_id :
    (m : AppUserId) → FitsAppUserId m → from_data_app_user_id (to_data_app_user_id m) ≡ ok m
unfolding from_data_app_user_id to_data_app_user_id
from-to_data_app_user_id m f = simp (wire_laws, f.appid, f.uid)

-- The integers of AppRoomId are in range.
pub record FitsAppRoomId (m : AppRoomId) : Type 0 where
  pub appid : m.appid < 256 ^ 8
  pub room_id : m.room_id < 256 ^ 8

pub from-to_data_app_room_id :
    (m : AppRoomId) → FitsAppRoomId m → from_data_app_room_id (to_data_app_room_id m) ≡ ok m
unfolding from_data_app_room_id to_data_app_room_id
from-to_data_app_room_id m f = simp (wire_laws, f.appid, f.room_id)

-- The integers of AppGroupMemberId are in range.
pub record FitsAppGroupMemberId (m : AppGroupMemberId) : Type 0 where
  pub appid : m.appid < 256 ^ 8
  pub gid : m.gid < 256 ^ 8
  pub uid : m.uid < 256 ^ 8

pub from-to_data_app_group_member_id :
    (m : AppGroupMemberId)
    → FitsAppGroupMemberId m
    → from_data_app_group_member_id (to_data_app_group_member_id m) ≡ ok m
unfolding from_data_app_group_member_id to_data_app_group_member_id
from-to_data_app_group_member_id m f = simp (wire_laws, f.appid, f.gid, f.uid)

-- The integers of SyncKey are in range.
pub record FitsSyncKey (m : SyncKey) : Type 0 where
  pub sync_key : m.sync_key < 256 ^ 8

pub from-to_data_sync_key :
    (m : SyncKey) → FitsSyncKey m → from_data_sync_key (to_data_sync_key m) ≡ ok m
unfolding from_data_sync_key to_data_sync_key
from-to_data_sync_key m f = simp (wire_laws, f.sync_key)

-- The integers of GroupSyncKey are in range.
pub record FitsGroupSyncKey (m : GroupSyncKey) : Type 0 where
  pub group_id : m.group_id < 256 ^ 8
  pub sync_key : m.sync_key < 256 ^ 8

pub from-to_data_group_sync_key :
    (m : GroupSyncKey)
    → FitsGroupSyncKey m
    → from_data_group_sync_key (to_data_group_sync_key m) ≡ ok m
unfolding from_data_group_sync_key to_data_group_sync_key
from-to_data_group_sync_key m f = simp (wire_laws, f.group_id, f.sync_key)

-- The integers of AuthenticationStatus are in range.
pub record FitsAuthenticationStatus (m : AuthenticationStatus) : Type 0 where
  pub status : m.status < 256 ^ 4

pub from-to_data_authentication_status :
    (m : AuthenticationStatus)
    → FitsAuthenticationStatus m
    → from_data_authentication_status (to_data_authentication_status m) ≡ ok m
unfolding from_data_authentication_status to_data_authentication_status
from-to_data_authentication_status m f = simp (wire_laws, f.status)

-- The integers of SubscribeMessage are in range.
pub record FitsSubscribeMessage (m : SubscribeMessage) : Type 0 where
  pub appid : m.appid < 256 ^ 8
  pub uid : m.uid < 256 ^ 8
  pub online : m.online < 256 ^ 1

pub from-to_data_subscribe_message :
    (m : SubscribeMessage)
    → FitsSubscribeMessage m
    → from_data_subscribe_message (to_data_subscribe_message m) ≡ ok m
unfolding from_data_subscribe_message to_data_subscribe_message
from-to_data_subscribe_message m f = simp (wire_laws, f.appid, f.uid, f.online)

-- The integers of SyncCursor are in range.
pub record FitsSyncCursor (m : SyncCursor) : Type 0 where
  pub msgid : m.msgid < 256 ^ 8

pub from-to_data_sync_cursor :
    (m : SyncCursor) → FitsSyncCursor m → from_data_sync_cursor (to_data_sync_cursor m) ≡ ok m
unfolding from_data_sync_cursor to_data_sync_cursor
from-to_data_sync_cursor m f = simp (wire_laws, f.msgid)
