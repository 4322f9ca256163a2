-- ===== src/Message/Fits.antt =====
-- Which messages the frame format can carry: every integer is in range, a length fits the integer
-- that holds it, no layout loses a field, and each body is of its command's type and below the
-- limit of the receiver, which is 32 KiB for a message inside another.
use im_service_modify.Prelude.{max, ℕ, suc, ◌*◌, ◌^◌, ◌≤◌, ◌<◌, ◌≡◌, ◌≢◌, [], length}
use im_service_modify.Message.Body.{
  Message, MessagePtr, Messages, Body, message, nil_ptr, ptr, no_messages, more_messages,
  count_messages,
}
use im_service_modify.Message.Creators.{creator, kind_of}
use im_service_modify.Message.Frame.{to_data, write_message}
use im_service_modify.Message.TextLaws.{
  FitsImMessage, FitsRtMessage, FitsCustomerMessage, FitsVoipControl,
}
use im_service_modify.Message.AuthLaws.{FitsAuthenticationToken}
use im_service_modify.Message.OfflineLaws.{FitsOfflineMessage, FitsGroupOfflineMessage}
use im_service_modify.Message.PendingLaws.{FitsPendingGroupMessage}
use im_service_modify.Message.FixedLaws.{
  FitsMessageAck, FitsMessageUnreadCount, FitsRoom, FitsAppUserId, FitsAppRoomId, FitsSyncKey,
  FitsGroupSyncKey, FitsAuthenticationStatus, FitsSubscribeMessage, FitsSyncCursor,
}

-- How deep messages stand in one another.
unfoldable mutual
  pub depth : Message → ℕ
  depth (message cmd seq version flag body) = suc (depth_body body)

  pub depth_ptr : MessagePtr → ℕ
  depth_ptr nil_ptr = 0
  depth_ptr (ptr m) = depth m

  pub depth_messages : Messages → ℕ
  depth_messages no_messages = 0
  depth_messages (more_messages m ms) = max (depth m) (depth_messages ms)

  pub depth_body : Body → ℕ
  depth_body (Body.app_message a r i d t m) = depth_ptr m
  depth_body (Body.emessage i d m) = depth_ptr m
  depth_body (Body.message_batch f l ms) = depth_messages ms
  depth_body _ = 0

unfoldable mutual
  -- `limit` is the receiver's limit of the body's length.
  pub FitsMessage : ℕ → Message → Type 0
  FitsMessage limit (message cmd seq version flag body) =
      (cmd < 256)
      × (seq < 256 ^ 4)
      × (version < 256)
      × (flag < 256)
      × (creator cmd ≡ kind_of body)
      × (length (to_data version body) < limit)
      × FitsBody version body

  pub FitsPtr : MessagePtr → Type 0
  FitsPtr nil_ptr = ⊥
  FitsPtr (ptr m) = (length (write_message m) < 32768) × FitsMessage (32 * 1024) m

  pub FitsMessages : Messages → Type 0
  FitsMessages no_messages = Unit
  FitsMessages (more_messages m ms) = FitsMessage (32 * 1024) m × FitsMessages ms

  pub FitsBody : ℕ → Body → Type 0
  FitsBody version Body.nil = Unit
  FitsBody version Body.ignore_message = Unit
  FitsBody version (Body.im_message m) = FitsImMessage m × (version ≡ 0 → m.timestamp ≡ 0)
  FitsBody version (Body.system_message text) = Unit
  FitsBody version (Body.group_notification text) = Unit
  FitsBody version (Body.message_ack m) = FitsMessageAck m
  FitsBody version (Body.authentication_token m) = FitsAuthenticationToken m
  FitsBody version (Body.rt_message m) = FitsRtMessage m
  FitsBody version (Body.room m) = FitsRoom m
  FitsBody version (Body.room_message m) = FitsRtMessage m
  FitsBody version (Body.message_unread_count m) = FitsMessageUnreadCount m
  FitsBody version (Body.customer_message m) = FitsCustomerMessage m
  FitsBody version (Body.sync_key m) = FitsSyncKey m
  FitsBody version (Body.group_sync_key m) = FitsGroupSyncKey m
  FitsBody version (Body.voip_control m) = FitsVoipControl m × (m.content ≢ [])
  FitsBody version (Body.authentication_status m) = FitsAuthenticationStatus m
  FitsBody version (Body.subscribe_message m) = FitsSubscribeMessage m
  FitsBody version (Body.app_user_id m) = FitsAppUserId m
  FitsBody version (Body.app_room_id m) = FitsAppRoomId m
  FitsBody version (Body.sync_cursor m) = FitsSyncCursor m
  FitsBody version (Body.offline_message1 m) =
      FitsOfflineMessage m
      × (m.seq_id ≡ 0)
      × (m.prev_peer_msgid ≡ m.prev_msgid)
      × (m.prev_batch_msgid ≡ 0)
  FitsBody version (Body.offline_message2 m) =
      FitsOfflineMessage m × (m.seq_id ≡ 0) × (m.prev_batch_msgid ≡ 0)
  FitsBody version (Body.offline_message3 m) = FitsOfflineMessage m × (m.seq_id ≡ 0)
  FitsBody version (Body.offline_message4 m) = FitsOfflineMessage m
  FitsBody version (Body.group_offline_message m) = FitsGroupOfflineMessage m
  FitsBody version (Body.pending_group_message m) =
      FitsPendingGroupMessage m × (length m.members ≤ 4091)
  FitsBody version (Body.app_message appid receiver msgid device_id timestamp m) =
      (appid < 256 ^ 8)
      × (receiver < 256 ^ 8)
      × (msgid < 256 ^ 8)
      × (device_id < 256 ^ 8)
      × (timestamp < 256 ^ 8)
      × FitsPtr m
  FitsBody version (Body.emessage msgid device_id m) =
      (msgid < 256 ^ 8) × (device_id < 256 ^ 8) × FitsPtr m
  FitsBody version (Body.message_batch first_id last_id ms) =
      (first_id < 256 ^ 8)
      × (last_id < 256 ^ 8)
      × (count_messages ms < 2147483648)
      × FitsMessages ms
