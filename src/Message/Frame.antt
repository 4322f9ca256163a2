-- ===== src/Message/Frame.antt =====
-- serverCommon/model/protocol.go and `Message.ToData`, `Message.FromData` of
-- serverCommon/model/message.go: the frames that carry messages. A connection, or a buffer that is
-- read as one, is the bytes that it still holds.
use im_service_modify.Prelude.{
  ℕ, zero, suc, ◌*◌, Bool, true, false, not, ◌&&◌, ◌||◌, [], ◌++◌, ltb, leb, ◌==◌, length, take,
  drop, if◌then◌else◌, Option, none, some,
}
use im_service_modify.Wire.{
  Bytes, write, read, is_negative, Outcome, ok, refused, panics, stuck, ◌>>=◌,
}
use im_service_modify.Message.Text.{
  to_data_im, from_data_im, to_data_rt_message, from_data_rt_message, to_data_customer_message,
  from_data_customer_message, to_data_voip_control, from_data_voip_control,
}
use im_service_modify.Message.Auth.{to_data_authentication_token, from_data_authentication_token}
use im_service_modify.Message.Offline.{
  to_data_offline_message1, from_data_offline_message1, to_data_offline_message2,
  from_data_offline_message2, to_data_offline_message3, from_data_offline_message3,
  to_data_offline_message4, from_data_offline_message4, to_data_group_offline_message,
  from_data_group_offline_message,
}
use im_service_modify.Message.Pending.{
  to_data_pending_group_message, from_data_pending_group_message,
}
use im_service_modify.Message.Fixed.{
  to_data_message_ack, from_data_message_ack, to_data_message_unread_count,
  from_data_message_unread_count, to_data_room, from_data_room, to_data_app_user_id,
  from_data_app_user_id, to_data_app_room_id, from_data_app_room_id, to_data_sync_key,
  from_data_sync_key, to_data_group_sync_key, from_data_group_sync_key,
  to_data_authentication_status, from_data_authentication_status, to_data_subscribe_message,
  from_data_subscribe_message, to_data_sync_cursor, from_data_sync_cursor,
}
use im_service_modify.Message.Body.{
  Message, MessagePtr, Messages, Body, message, nil_ptr, ptr, no_messages, more_messages,
  count_messages,
}
use im_service_modify.Message.Creators.{Kind, creator, is_external}

-- `WriteHeader` with the body behind it.
abbrev pub frame : ℕ → ℕ → ℕ → ℕ → Bytes → Bytes
frame cmd seq version flag body =
    write 4 (length body)
    ++ (write 4 seq ++ (write 1 cmd ++ (write 1 version ++ (write 1 flag ++ (write 1 0 ++ body)))))

unfoldable mutual
  -- `Message.ToData`: only `IMMessage` reads the version.
  pub to_data : ℕ → Body → Bytes
  to_data version Body.nil = []
  to_data version Body.ignore_message = []
  to_data version (Body.im_message m) = to_data_im version m
  to_data version (Body.system_message text) = text
  to_data version (Body.group_notification text) = text
  to_data version (Body.message_ack m) = to_data_message_ack m
  to_data version (Body.authentication_token m) = to_data_authentication_token m
  to_data version (Body.rt_message m) = to_data_rt_message m
  to_data version (Body.room m) = to_data_room m
  to_data version (Body.room_message m) = to_data_rt_message m
  to_data version (Body.message_unread_count m) = to_data_message_unread_count m
  to_data version (Body.customer_message m) = to_data_customer_message m
  to_data version (Body.sync_key m) = to_data_sync_key m
  to_data version (Body.group_sync_key m) = to_data_group_sync_key m
  to_data version (Body.voip_control m) = to_data_voip_control m
  to_data version (Body.authentication_status m) = to_data_authentication_status m
  to_data version (Body.subscribe_message m) = to_data_subscribe_message m
  to_data version (Body.app_user_id m) = to_data_app_user_id m
  to_data version (Body.app_room_id m) = to_data_app_room_id m
  to_data version (Body.sync_cursor m) = to_data_sync_cursor m
  to_data version (Body.offline_message1 m) = to_data_offline_message1 m
  to_data version (Body.offline_message2 m) = to_data_offline_message2 m
  to_data version (Body.offline_message3 m) = to_data_offline_message3 m
  to_data version (Body.offline_message4 m) = to_data_offline_message4 m
  to_data version (Body.group_offline_message m) = to_data_group_offline_message m
  to_data version (Body.pending_group_message m) = to_data_pending_group_message m
  to_data version (Body.app_message appid receiver msgid device_id timestamp msg) =
      app_message_data
        (write 8 appid
          ++ (write 8 receiver ++ (write 8 msgid ++ (write 8 device_id ++ write 8 timestamp))))
        msg
  to_data version (Body.emessage msgid device_id msg) =
      app_message_data (write 8 msgid ++ write 8 device_id) msg
  to_data version (Body.message_batch first_id last_id msgs) =
      write 8 first_id
      ++ (write 8 last_id ++ (write 4 (count_messages msgs) ++ write_messages msgs))

  -- A nil message is written as nothing at all, any other behind its length as an `int16`.
  pub app_message_data : Bytes → MessagePtr → Bytes
  app_message_data head nil_ptr = []
  app_message_data head (ptr m) = let buf = write_message m in head ++ (write 2 (length buf) ++ buf)

  -- The loop of `MessageBatch.ToData`; `SendMessage` into a buffer cannot fail.
  pub write_messages : Messages → Bytes
  write_messages no_messages = []
  write_messages (more_messages m ms) = write_message m ++ write_messages ms

  pub write_message : Message → Bytes
  write_message (message cmd seq version flag body) =
      frame cmd seq version flag (to_data version body)

abbrev pub Receive : Type 0
Receive = Bytes → Outcome (Message × Bytes)

-- The bodies that hold messages, over the receiver for those.
module _ (receive : Receive) where
  unfoldable pub from_data_app_message : Bytes → Outcome Body
  from_data_app_message buff =
      if ltb (length buff) 42
      then refused
      else (let (appid, b1) = read 8 0 buff in
          let (receiver, b2) = read 8 0 b1 in
          let (msgid, b3) = read 8 0 b2 in
          let (device_id, b4) = read 8 0 b3 in
          let (timestamp, b5) = read 8 0 b4 in
          let (l, b6) = read 2 0 b5 in
          if not (is_negative 2 l) && ltb (length b6) l || is_negative 2 l then refused else (do
            (m, _) ← receive (take l b6)
            ok (Body.app_message appid receiver msgid device_id timestamp (ptr m))))

  -- Unlike `AppMessage` this does not ask whether the length is negative, and `make` panics then.
  unfoldable pub from_data_emessage : Bytes → Outcome Body
  from_data_emessage buff =
      if ltb (length buff) 18
      then refused
      else (let (msgid, b1) = read 8 0 buff in
          let (device_id, b2) = read 8 0 b1 in
          let (l, b3) = read 2 0 b2 in
          if not (is_negative 2 l) && ltb (length b3) l
          then refused
          else if is_negative 2 l
          then panics
          else (do (m, _) ← receive (take l b3); ok (Body.emessage msgid device_id (ptr m))))

  unfoldable pub receive_messages : ℕ → Bytes → Outcome Messages
  receive_messages zero buffer = ok no_messages
  receive_messages (suc n) buffer = do
    (m, rest) ← receive buffer
    ms ← receive_messages n rest
    ok (more_messages m ms)

  -- The test of the length lets 18 and 19 bytes through, of which the count is read as 0.
  unfoldable pub from_data_message_batch : Bytes → Outcome Body
  from_data_message_batch buff =
      if ltb (length buff) 18
      then refused
      else (let (first_id, b1) = read 8 0 buff in
          let (last_id, b2) = read 8 0 b1 in
          let (count, b3) = read 4 0 b2 in
          if is_negative 4 count
          then panics
          else (do ms ← receive_messages count b3; ok (Body.message_batch first_id last_id ms)))

  unfoldable pub from_data_kind : Option Kind → ℕ → Bytes → Outcome Body
  from_data_kind none version buff = if length buff == 0 then ok Body.nil else refused
  from_data_kind (some Kind.ignore_message) version buff = ok Body.ignore_message
  from_data_kind (some Kind.im_message) version buff = do
    m ← from_data_im version buff
    ok (Body.im_message m)
  from_data_kind (some Kind.system_message) version buff = ok (Body.system_message buff)
  from_data_kind (some Kind.group_notification) version buff = ok (Body.group_notification buff)
  from_data_kind (some Kind.message_ack) version buff = do
    m ← from_data_message_ack buff
    ok (Body.message_ack m)
  from_data_kind (some Kind.authentication_token) version buff = do
    m ← from_data_authentication_token buff
    ok (Body.authentication_token m)
  from_data_kind (some Kind.rt_message) version buff = do
    m ← from_data_rt_message buff
    ok (Body.rt_message m)
  from_data_kind (some Kind.room) version buff = do m ← from_data_room buff; ok (Body.room m)
  from_data_kind (some Kind.room_message) version buff = do
    m ← from_data_rt_message buff
    ok (Body.room_message m)
  from_data_kind (some Kind.message_unread_count) version buff = do
    m ← from_data_message_unread_count buff
    ok (Body.message_unread_count m)
  from_data_kind (some Kind.customer_message) version buff = do
    m ← from_data_customer_message buff
    ok (Body.customer_message m)
  from_data_kind (some Kind.sync_key) version buff = do
    m ← from_data_sync_key buff
    ok (Body.sync_key m)
  from_data_kind (some Kind.group_sync_key) version buff = do
    m ← from_data_group_sync_key buff
    ok (Body.group_sync_key m)
  from_data_kind (some Kind.voip_control) version buff = do
    m ← from_data_voip_control buff
    ok (Body.voip_control m)
  from_data_kind (some Kind.authentication_status) version buff = do
    m ← from_data_authentication_status buff
    ok (Body.authentication_status m)
  from_data_kind (some Kind.subscribe_message) version buff = do
    m ← from_data_subscribe_message buff
    ok (Body.subscribe_message m)
  from_data_kind (some Kind.app_user_id) version buff = do
    m ← from_data_app_user_id buff
    ok (Body.app_user_id m)
  from_data_kind (some Kind.app_room_id) version buff = do
    m ← from_data_app_room_id buff
    ok (Body.app_room_id m)
  from_data_kind (some Kind.sync_cursor) version buff = do
    m ← from_data_sync_cursor buff
    ok (Body.sync_cursor m)
  from_data_kind (some Kind.offline_message1) version buff = do
    m ← from_data_offline_message1 buff
    ok (Body.offline_message1 m)
  from_data_kind (some Kind.offline_message2) version buff = do
    m ← from_data_offline_message2 buff
    ok (Body.offline_message2 m)
  from_data_kind (some Kind.offline_message3) version buff = do
    m ← from_data_offline_message3 buff
    ok (Body.offline_message3 m)
  from_data_kind (some Kind.offline_message4) version buff = do
    m ← from_data_offline_message4 buff
    ok (Body.offline_message4 m)
  from_data_kind (some Kind.group_offline_message) version buff = do
    m ← from_data_group_offline_message buff
    ok (Body.group_offline_message m)
  from_data_kind (some Kind.pending_group_message) version buff = do
    m ← from_data_pending_group_message buff
    ok (Body.pending_group_message m)
  from_data_kind (some Kind.app_message) version buff = from_data_app_message buff
  from_data_kind (some Kind.emessage) version buff = from_data_emessage buff
  from_data_kind (some Kind.message_batch) version buff = from_data_message_batch buff

  -- `Message.FromData`
  unfoldable pub from_data : ℕ → ℕ → Bytes → Outcome Body
  from_data cmd version buff = from_data_kind (creator cmd) version buff

-- `ReadHeader`: length, sequence number, command, version and flag.
unfoldable pub read_header : Bytes → ℕ × ℕ × ℕ × ℕ × ℕ
read_header buff =
    let (len, b1) = read 4 0 buff in
    let (seq, b2) = read 4 0 b1 in
    let (cmd, b3) = read 1 0 b2 in
    let (version, b4) = read 1 0 b3 in let (flag, _) = read 1 0 b4 in (len, seq, cmd, version, flag)

-- `ReceiveLimitMessage` over a depth of nesting: the message, and what the connection still holds.
unfoldable pub receive_limit : ℕ → ℕ → Bool → Receive
receive_limit zero limit external conn = stuck
receive_limit (suc fuel) limit external conn =
    if ltb (length conn) 12
    then refused
    else (let (len, seq, cmd, version, flag) = read_header (take 12 conn) in
        if is_negative 4 len || leb limit len
        then refused
        else if external && not (is_external cmd)
        then refused
        else if ltb (length (drop 12 conn)) len
        then refused
        else (do
          body ←
              from_data (receive_limit fuel (32 * 1024) false) cmd version (take len (drop 12 conn))
          ok (message cmd seq version flag body, drop len (drop 12 conn))))

-- The nesting is never deeper than the bytes.
unfoldable pub receive_message : Receive
receive_message conn = receive_limit (suc (length conn)) (32 * 1024) false conn

unfoldable pub receive_client_message : Receive
receive_client_message conn = receive_limit (suc (length conn)) (32 * 1024) true conn

unfoldable pub receive_storage_sync_message : Receive
receive_storage_sync_message conn = receive_limit (suc (length conn)) (32 * 1024 * 1024) false conn
