-- ===== src/Message/Total.antt =====
-- The receivers end on every input, whatever lengths and counts it claims.
use im_service_modify.Prelude.{
  lt→ltb, ltb→le, ltb→lt, ℕ, zero, suc, ◌+◌, ◌*◌, ◌≤◌, ◌<◌, ◌≡◌, ◌≢◌, Bool, true, false, ltb,
  length, take, drop, length-drop, arith, Option, none, some, Bool-cases, inl, inr, ◌⊎◌,
}
use im_service_modify.Wire.{Bytes, read, ok, stuck}
use im_service_modify.Message.Body.{Message}
use im_service_modify.Message.Creators.{Kind, creator}
use im_service_modify.Message.Frame.{
  Receive, from_data_app_message, from_data_emessage, receive_messages, from_data_message_batch,
  from_data_kind, from_data, read_header, receive_limit, receive_message, receive_client_message,
  receive_storage_sync_message,
}
use im_service_modify.Message.Avoids.{
  out_of_fuel, Avoids, Avoids-ok, Avoids-refused, Avoids-panics, Avoids->>=, Avoids-if,
  Avoids-ne-stuck, avoids_rules, im-Avoids, app_room_id-Avoids, app_user_id-Avoids,
  authentication_status-Avoids, authentication_token-Avoids, customer_message-Avoids,
  group_offline_message-Avoids, group_sync_key-Avoids, message_ack-Avoids,
  message_unread_count-Avoids, offline_message1-Avoids, offline_message2-Avoids,
  offline_message3-Avoids, offline_message4-Avoids, room-Avoids, rt_message-Avoids,
  subscribe_message-Avoids, sync_cursor-Avoids, sync_key-Avoids, voip_control-Avoids,
  pending_group_message-Avoids,
}
use im_service_modify.Wire.Laws.{length-read}
use im_service_modify.Prelude.{length-take-le-length}

-- Every buffer below a length is dealt with, and none is left longer.
pub record EndsBelow (receive : Receive) (n : ℕ) : Type 0 where
  pub at : (buffer : Bytes) → length buffer < n → Avoids out_of_fuel (receive buffer)
  pub shrinks :
      (buffer : Bytes) (m : Message) (rest : Bytes)
      → receive buffer ≡ ok (m, rest)
      → length rest ≤ length buffer

module _ (receive : Receive) (n : ℕ) (below : EndsBelow receive n) where
  app_message_ends :
      (buff : Bytes) → length buff < n → Avoids out_of_fuel (from_data_app_message receive buff)
  unfolding from_data_app_message
  app_message_ends buff h = Avoids-if out_of_fuel _ _ _ (Avoids-refused out_of_fuel) (
      Avoids-if out_of_fuel _ _ _ (Avoids-refused out_of_fuel) (
        Avoids->>= out_of_fuel _ _
          (below.at _ (omega (arith, length-read, length-take-le-length {0})))
          (λ a e. Avoids-ok out_of_fuel _)))

  emessage_ends :
      (buff : Bytes) → length buff < n → Avoids out_of_fuel (from_data_emessage receive buff)
  unfolding from_data_emessage
  emessage_ends buff h =
      let (l, b) = read 2 0 (read 8 0 (read 8 0 buff).1).1 in
      let inner = below.at (take l b) (omega (arith, length-read, length-take-le-length {0})) in
      record { missed = ground (arith, inner.missed) }

  receive_messages_ends :
      (count : ℕ) (buffer : Bytes)
      → length buffer < n
      → Avoids out_of_fuel (receive_messages receive count buffer)
  unfolding receive_messages
  receive_messages_ends zero buffer h = Avoids-ok out_of_fuel _
  receive_messages_ends (suc count) buffer h =
      Avoids->>= out_of_fuel (receive buffer) _ (below.at buffer h) (λ p e.
        Avoids->>= out_of_fuel (receive_messages receive count p.1) _
          (receive_messages_ends count p.1 (omega (arith, below.shrinks buffer p.0 p.1 e)))
          (λ ms _. Avoids-ok out_of_fuel _))

  message_batch_ends :
      (buff : Bytes) → length buff < n → Avoids out_of_fuel (from_data_message_batch receive buff)
  unfolding from_data_message_batch
  message_batch_ends buff h = Avoids-if out_of_fuel _ _ _ (Avoids-refused out_of_fuel) (
      Avoids-if out_of_fuel _ _ _ Avoids-panics (
        Avoids->>= out_of_fuel _ _ (receive_messages_ends _ _ (omega (arith, length-read)))
          (λ ms _. Avoids-ok out_of_fuel _)))

  from_data_ends :
      (cmd version : ℕ) (buff : Bytes)
      → length buff < n
      → Avoids out_of_fuel (from_data receive cmd version buff)
  unfolding from_data from_data_kind
  from_data_ends cmd version buff h = kind_ends (creator cmd)
    where
      kind_ends : (k : Option Kind) → Avoids out_of_fuel (from_data_kind receive k version buff)
      kind_ends none = search avoids_rules
      kind_ends (some Kind.ignore_message) = Avoids-ok out_of_fuel _
      kind_ends (some Kind.im_message) =
          Avoids->>= out_of_fuel _ _ (im-Avoids out_of_fuel version buff)
            (λ m _. Avoids-ok out_of_fuel _)
      kind_ends (some Kind.system_message) = Avoids-ok out_of_fuel _
      kind_ends (some Kind.group_notification) = Avoids-ok out_of_fuel _
      kind_ends (some Kind.message_ack) =
          Avoids->>= out_of_fuel _ _ (message_ack-Avoids out_of_fuel buff)
            (λ m _. Avoids-ok out_of_fuel _)
      kind_ends (some Kind.authentication_token) =
          Avoids->>= out_of_fuel _ _ (authentication_token-Avoids out_of_fuel buff)
            (λ m _. Avoids-ok out_of_fuel _)
      kind_ends (some Kind.rt_message) =
          Avoids->>= out_of_fuel _ _ (rt_message-Avoids out_of_fuel buff)
            (λ m _. Avoids-ok out_of_fuel _)
      kind_ends (some Kind.room) =
          Avoids->>= out_of_fuel _ _ (room-Avoids out_of_fuel buff) (λ m _. Avoids-ok out_of_fuel _)
      kind_ends (some Kind.room_message) =
          Avoids->>= out_of_fuel _ _ (rt_message-Avoids out_of_fuel buff)
            (λ m _. Avoids-ok out_of_fuel _)
      kind_ends (some Kind.message_unread_count) =
          Avoids->>= out_of_fuel _ _ (message_unread_count-Avoids out_of_fuel buff)
            (λ m _. Avoids-ok out_of_fuel _)
      kind_ends (some Kind.customer_message) =
          Avoids->>= out_of_fuel _ _ (customer_message-Avoids out_of_fuel buff)
            (λ m _. Avoids-ok out_of_fuel _)
      kind_ends (some Kind.sync_key) =
          Avoids->>= out_of_fuel _ _ (sync_key-Avoids out_of_fuel buff)
            (λ m _. Avoids-ok out_of_fuel _)
      kind_ends (some Kind.group_sync_key) =
          Avoids->>= out_of_fuel _ _ (group_sync_key-Avoids out_of_fuel buff)
            (λ m _. Avoids-ok out_of_fuel _)
      kind_ends (some Kind.voip_control) =
          Avoids->>= out_of_fuel _ _ (voip_control-Avoids out_of_fuel buff)
            (λ m _. Avoids-ok out_of_fuel _)
      kind_ends (some Kind.authentication_status) =
          Avoids->>= out_of_fuel _ _ (authentication_status-Avoids out_of_fuel buff)
            (λ m _. Avoids-ok out_of_fuel _)
      kind_ends (some Kind.subscribe_message) =
          Avoids->>= out_of_fuel _ _ (subscribe_message-Avoids out_of_fuel buff)
            (λ m _. Avoids-ok out_of_fuel _)
      kind_ends (some Kind.app_user_id) =
          Avoids->>= out_of_fuel _ _ (app_user_id-Avoids out_of_fuel buff)
            (λ m _. Avoids-ok out_of_fuel _)
      kind_ends (some Kind.app_room_id) =
          Avoids->>= out_of_fuel _ _ (app_room_id-Avoids out_of_fuel buff)
            (λ m _. Avoids-ok out_of_fuel _)
      kind_ends (some Kind.sync_cursor) =
          Avoids->>= out_of_fuel _ _ (sync_cursor-Avoids out_of_fuel buff)
            (λ m _. Avoids-ok out_of_fuel _)
      kind_ends (some Kind.offline_message1) =
          Avoids->>= out_of_fuel _ _ (offline_message1-Avoids out_of_fuel buff)
            (λ m _. Avoids-ok out_of_fuel _)
      kind_ends (some Kind.offline_message2) =
          Avoids->>= out_of_fuel _ _ (offline_message2-Avoids out_of_fuel buff)
            (λ m _. Avoids-ok out_of_fuel _)
      kind_ends (some Kind.offline_message3) =
          Avoids->>= out_of_fuel _ _ (offline_message3-Avoids out_of_fuel buff)
            (λ m _. Avoids-ok out_of_fuel _)
      kind_ends (some Kind.offline_message4) =
          Avoids->>= out_of_fuel _ _ (offline_message4-Avoids out_of_fuel buff)
            (λ m _. Avoids-ok out_of_fuel _)
      kind_ends (some Kind.group_offline_message) =
          Avoids->>= out_of_fuel _ _ (group_offline_message-Avoids out_of_fuel buff)
            (λ m _. Avoids-ok out_of_fuel _)
      kind_ends (some Kind.pending_group_message) =
          Avoids->>= out_of_fuel _ _ (pending_group_message-Avoids buff)
            (λ m _. Avoids-ok out_of_fuel _)
      kind_ends (some Kind.app_message) = app_message_ends buff h
      kind_ends (some Kind.emessage) = emessage_ends buff h
      kind_ends (some Kind.message_batch) = message_batch_ends buff h

-- Receiving takes at least the header.
receive_limit-shrinks :
    (fuel limit : ℕ) (external : Bool) (conn : Bytes) (m : Message) (rest : Bytes)
    → receive_limit fuel limit external conn ≡ ok (m, rest)
    → length rest + 12 ≤ length conn
unfolding receive_limit
receive_limit-shrinks zero limit external conn m rest h = cc
receive_limit-shrinks (suc fuel) limit external conn m rest h =
    ground (arith, length-drop 12 conn, length-drop (read_header (take 12 conn)).0 (drop 12 conn))

receive_limit_ends :
    (fuel limit : ℕ) (external : Bool) (conn : Bytes)
    → length conn < fuel
    → Avoids out_of_fuel (receive_limit fuel limit external conn)
unfolding receive_limit
receive_limit_ends zero limit external conn h = absurd (omega arith)
receive_limit_ends (suc fuel) limit external conn h =
    let inner : EndsBelow (receive_limit fuel (32 * 1024) false) fuel = record {
      at = λ buffer below. receive_limit_ends fuel (32 * 1024) false buffer below;
      shrinks = λ buffer m rest e.
          omega (arith, receive_limit-shrinks fuel (32 * 1024) false buffer m rest e);
    } in
    let (len, seq, cmd, version, flag) = read_header (take 12 conn) in
    let text : Bytes = take len (drop 12 conn) in
    let shorter : length conn < 12 ⊎ length text < fuel = elim (Bool-cases (ltb (length conn) 12)) [
      | inl e ↦ inl (ltb→lt (length conn) 12 e)
      | inr e ↦ inr (
          omega (
            arith,
            ltb→le (length conn) 12 e,
            length-drop 12 conn,
            length-take-le-length {0} len (drop 12 conn),
          ))
    ] in
    elim shorter [
      | inl short ↦ rw (lt→ltb _ _ short) (Avoids-refused out_of_fuel)
      | inr p ↦ record {
        missed = ground (
          arith,
          (from_data_ends (receive_limit fuel (32 * 1024) false) fuel inner cmd version text
              p).missed,
        );
      }
    ]

-- `ReceiveMessage`, `ReceiveClientMessage` and `ReceiveStorageSyncMessage` come to an end on every
-- input: the depth of nesting that the model allows is never used up.
pub receivers-ne-stuck :
    (conn : Bytes)
    → (receive_message conn ≢ stuck)
      × (receive_client_message conn ≢ stuck)
      × (receive_storage_sync_message conn ≢ stuck)
unfolding receive_message receive_client_message receive_storage_sync_message
receivers-ne-stuck conn = (
  Avoids-ne-stuck (receive_limit_ends _ _ false conn (omega arith)),
  Avoids-ne-stuck (receive_limit_ends _ _ true conn (omega arith)),
  Avoids-ne-stuck (receive_limit_ends _ _ false conn (omega arith)),
)
