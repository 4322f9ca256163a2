-- ===== src/Message/BodyLaws.antt =====
-- Every type of body is read back from what was written, given that the messages inside it are.
use im_service_modify.Prelude.{
  ℕ, ◌^◌, ◌<◌, ◌≡◌, refl, [], ◌++◌, append_assoc, append-nil, length, arith,
}
use im_service_modify.Wire.{Bytes, ok}
use im_service_modify.Message.Body.{
  Message, Messages, Body, nil_ptr, ptr, no_messages, more_messages, count_messages,
}
use im_service_modify.Message.Creators.{kind_of}
use im_service_modify.Message.Text.{from_data_im, to_data_im}
use im_service_modify.Message.Frame.{
  to_data, write_messages, write_message, Receive, from_data_app_message, from_data_emessage,
  receive_messages, from_data_message_batch, from_data_kind,
}
use im_service_modify.Message.TextLaws.{
  from-to_data_im_v0, from-to_data_im_v1, from-to_data_rt_message, from-to_data_customer_message,
  from-to_data_voip_control,
}
use im_service_modify.Message.AuthLaws.{from-to_data_authentication_token}
use im_service_modify.Message.OfflineLaws.{
  from-to_data_offline_message1, from-to_data_offline_message2, from-to_data_offline_message3,
  from-to_data_offline_message4, from-to_data_group_offline_message,
}
use im_service_modify.Message.PendingLaws.{from-to_data_pending_group_message}
use im_service_modify.Message.FixedLaws.{
  from-to_data_message_ack, from-to_data_message_unread_count, from-to_data_room,
  from-to_data_app_user_id, from-to_data_app_room_id, from-to_data_sync_key,
  from-to_data_group_sync_key, from-to_data_authentication_status, from-to_data_subscribe_message,
  from-to_data_sync_cursor,
}
use im_service_modify.Message.Fits.{FitsBody}
use im_service_modify.Message.Text.{to_data_im, from_data_im}
use im_service_modify.Wire.Laws.{wire_laws}
use im_service_modify.Prelude.{list_laws}

-- Receiving a message whole, with whatever follows it.
abbrev pub Receives : Receive → Message → Type 0
Receives receive m = (rest : Bytes) → receive (write_message m ++ rest) ≡ ok (m, rest)

module _ (receive : Receive) where
  pub from-to_data_app_message :
      (version appid receiver msgid device_id timestamp : ℕ) (m : Message)
      → FitsBody version (Body.app_message appid receiver msgid device_id timestamp (ptr m))
      → Receives receive m
      → from_data_app_message receive
          (to_data version (Body.app_message appid receiver msgid device_id timestamp (ptr m)))
        ≡ ok (Body.app_message appid receiver msgid device_id timestamp (ptr m))
  unfolding from_data_app_message to_data FitsBody
  from-to_data_app_message version appid receiver msgid device_id timestamp m
        (h1, h2, h3, h4, h5, (h6, _)) r =
      let l : length (write_message m) < 256 ^ 2 = omega arith in
      let whole : receive (write_message m) ≡ ok (m, []) = rw append-nil at (r []) in
      simp (append_assoc, wire_laws, list_laws, h1, h2, h3, h4, h5, l, whole) (ground arith)

  pub from-to_data_emessage :
      (version msgid device_id : ℕ) (m : Message)
      → FitsBody version (Body.emessage msgid device_id (ptr m))
      → Receives receive m
      → from_data_emessage receive (to_data version (Body.emessage msgid device_id (ptr m)))
        ≡ ok (Body.emessage msgid device_id (ptr m))
  unfolding from_data_emessage to_data FitsBody
  from-to_data_emessage version msgid device_id m (h1, h2, (h3, _)) r =
      let l : length (write_message m) < 256 ^ 2 = omega arith in
      let whole : receive (write_message m) ≡ ok (m, []) = rw append-nil at (r []) in
      simp (append_assoc, wire_laws, list_laws, h1, h2, l, whole) (ground arith)

  -- Each message of a list is received.
  abbrev pub ReceivesAll : Messages → Type 0
  ReceivesAll no_messages = Unit
  ReceivesAll (more_messages m ms) = Receives receive m × ReceivesAll ms

  receive_messages-write_messages :
      (ms : Messages)
      → ReceivesAll ms
      → receive_messages receive (count_messages ms) (write_messages ms) ≡ ok ms
  unfolding receive_messages to_data count_messages
  receive_messages-write_messages no_messages h = refl
  receive_messages-write_messages (more_messages m ms) (h, hs) =
      rw (h (write_messages ms)) (rw (receive_messages-write_messages ms hs))

  pub from-to_data_message_batch :
      (version first_id last_id : ℕ) (ms : Messages)
      → FitsBody version (Body.message_batch first_id last_id ms)
      → ReceivesAll ms
      → from_data_message_batch receive (to_data version (Body.message_batch first_id last_id ms))
        ≡ ok (Body.message_batch first_id last_id ms)
  unfolding from_data_message_batch to_data FitsBody
  from-to_data_message_batch version first_id last_id ms (h1, h2, h3, _) r =
      let c : count_messages ms < 256 ^ 4 = omega arith in
      simp (wire_laws, h1, h2, c, receive_messages-write_messages ms r) (ground arith)

  -- The messages inside a body are received.
  abbrev pub ReceivesBody : Body → Type 0
  ReceivesBody (Body.app_message a r i d t (ptr m)) = Receives receive m
  ReceivesBody (Body.emessage i d (ptr m)) = Receives receive m
  ReceivesBody (Body.message_batch f l ms) = ReceivesAll ms
  ReceivesBody _ = Unit

  pub from_data_kind-to_data :
      (version : ℕ) (b : Body)
      → FitsBody version b
      → ReceivesBody b
      → from_data_kind receive (kind_of b) version (to_data version b) ≡ ok b
  unfolding from_data_kind to_data kind_of FitsBody
  from_data_kind-to_data version Body.nil h r = refl
  from_data_kind-to_data version Body.ignore_message h r = refl
  from_data_kind-to_data version (Body.im_message m) h r =
      unfold from_data_im to_data_im in
      ground (arith, from-to_data_im_v0 m h.0, from-to_data_im_v1 m h.0)
  from_data_kind-to_data version (Body.system_message text) h r = refl
  from_data_kind-to_data version (Body.group_notification text) h r = refl
  from_data_kind-to_data version (Body.message_ack m) h r = rw (from-to_data_message_ack m h)
  from_data_kind-to_data version (Body.authentication_token m) h r =
      rw (from-to_data_authentication_token m h)
  from_data_kind-to_data version (Body.rt_message m) h r = rw (from-to_data_rt_message m h)
  from_data_kind-to_data version (Body.room m) h r = rw (from-to_data_room m h)
  from_data_kind-to_data version (Body.room_message m) h r = rw (from-to_data_rt_message m h)
  from_data_kind-to_data version (Body.message_unread_count m) h r =
      rw (from-to_data_message_unread_count m h)
  from_data_kind-to_data version (Body.customer_message m) h r =
      rw (from-to_data_customer_message m h)
  from_data_kind-to_data version (Body.sync_key m) h r = rw (from-to_data_sync_key m h)
  from_data_kind-to_data version (Body.group_sync_key m) h r = rw (from-to_data_group_sync_key m h)
  from_data_kind-to_data version (Body.voip_control m) h r =
      rw (from-to_data_voip_control m h.0 h.1)
  from_data_kind-to_data version (Body.authentication_status m) h r =
      rw (from-to_data_authentication_status m h)
  from_data_kind-to_data version (Body.subscribe_message m) h r =
      rw (from-to_data_subscribe_message m h)
  from_data_kind-to_data version (Body.app_user_id m) h r = rw (from-to_data_app_user_id m h)
  from_data_kind-to_data version (Body.app_room_id m) h r = rw (from-to_data_app_room_id m h)
  from_data_kind-to_data version (Body.sync_cursor m) h r = rw (from-to_data_sync_cursor m h)
  from_data_kind-to_data version (Body.offline_message1 m) h r =
      ground (arith, from-to_data_offline_message1 m h.0)
  from_data_kind-to_data version (Body.offline_message2 m) h r =
      ground (arith, from-to_data_offline_message2 m h.0)
  from_data_kind-to_data version (Body.offline_message3 m) h r =
      ground (arith, from-to_data_offline_message3 m h.0)
  from_data_kind-to_data version (Body.offline_message4 m) h r =
      rw (from-to_data_offline_message4 m h)
  from_data_kind-to_data version (Body.group_offline_message m) h r =
      rw (from-to_data_group_offline_message m h)
  from_data_kind-to_data version (Body.pending_group_message m) h r =
      rw (from-to_data_pending_group_message m h.0 h.1)
  from_data_kind-to_data version (Body.app_message a r i d t nil_ptr) h s = absurd h.5
  from_data_kind-to_data version (Body.app_message a r i d t (ptr m)) h s =
      from-to_data_app_message version a r i d t m h s
  from_data_kind-to_data version (Body.emessage i d nil_ptr) h s = absurd h.2
  from_data_kind-to_data version (Body.emessage i d (ptr m)) h s =
      from-to_data_emessage version i d m h s
  from_data_kind-to_data version (Body.message_batch f l ms) h s =
      from-to_data_message_batch version f l ms h s
