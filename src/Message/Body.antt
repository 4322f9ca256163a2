-- ===== src/Message/Body.antt =====
-- `Message` of serverCommon/model/message.go, with its body: an interface value in the source, here
-- a constructor for each type that a creator makes. The messages that hold messages,
-- `AppMessage` of serverCommon/model/route_message.go and `EMessage` and `MessageBatch` of
-- ServerIMS/model/storage_message.go, are part of the recursion.
use im_service_modify.Prelude.{ℕ, suc}
use im_service_modify.Wire.{Bytes}
use im_service_modify.Message.Text.{ImMessage, RtMessage, CustomerMessage, VoipControl}
use im_service_modify.Message.Auth.{AuthenticationToken}
use im_service_modify.Message.Offline.{OfflineMessage, GroupOfflineMessage}
use im_service_modify.Message.Pending.{PendingGroupMessage}
use im_service_modify.Message.Fixed.{
  MessageAck, MessageUnreadCount, Room, AppUserId, AppRoomId, SyncKey, GroupSyncKey,
  AuthenticationStatus, SubscribeMessage, SyncCursor,
}

mutual
  -- `Cmd`, `Seq`, `Version`, `Flag` and `Body`.
  pub data Message : Type 0 where
    message : ℕ → ℕ → ℕ → ℕ → Body → Message

  -- `*Message`
  pub data MessagePtr : Type 0 where
    nil_ptr : MessagePtr
    ptr : Message → MessagePtr

  -- `[]*Message`
  pub data Messages : Type 0 where
    no_messages : Messages
    more_messages : Message → Messages → Messages

  -- `app_message` holds `Appid`, `Receiver`, `Msgid`, `Device_id` and `Timestamp`, `emessage` holds
  -- `Msgid` and `Device_id`, `message_batch` holds `First_id` and `Last_id`.
  pub data Body : Type 0 where
    nil : Body
    ignore_message : Body
    im_message : ImMessage → Body
    system_message : Bytes → Body
    group_notification : Bytes → Body
    message_ack : MessageAck → Body
    authentication_token : AuthenticationToken → Body
    rt_message : RtMessage → Body
    room : Room → Body
    room_message : RtMessage → Body
    message_unread_count : MessageUnreadCount → Body
    customer_message : CustomerMessage → Body
    sync_key : SyncKey → Body
    group_sync_key : GroupSyncKey → Body
    voip_control : VoipControl → Body
    authentication_status : AuthenticationStatus → Body
    subscribe_message : SubscribeMessage → Body
    app_user_id : AppUserId → Body
    app_room_id : AppRoomId → Body
    sync_cursor : SyncCursor → Body
    offline_message1 : OfflineMessage → Body
    offline_message2 : OfflineMessage → Body
    offline_message3 : OfflineMessage → Body
    offline_message4 : OfflineMessage → Body
    group_offline_message : GroupOfflineMessage → Body
    pending_group_message : PendingGroupMessage → Body
    app_message : ℕ → ℕ → ℕ → ℕ → ℕ → MessagePtr → Body
    emessage : ℕ → ℕ → MessagePtr → Body
    message_batch : ℕ → ℕ → Messages → Body

unfoldable pub count_messages : Messages → ℕ
count_messages no_messages = 0
count_messages (more_messages m ms) = suc (count_messages ms)

abbrev pub cmd_of : Message → ℕ
cmd_of (message cmd seq version flag body) = cmd

abbrev pub flag_of : Message → ℕ
flag_of (message cmd seq version flag body) = flag

abbrev pub body_of : Message → Body
body_of (message cmd seq version flag body) = body
