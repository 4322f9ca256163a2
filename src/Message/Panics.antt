-- ===== src/Message/Panics.antt =====
-- What a client can do to the receiver: nothing that it sends makes the decoders panic.
use im_service_modify.Prelude.{
  ℕ, zero, suc, ◌*◌, ◌^◌, ◌<◌, ◌≡◌, ◌≢◌, refl, Bool, true, false, ◌&&◌, List, [], ◌∷◌, ◌++◌,
  append_assoc, length, take, drop, arith, Option, none, some, Bool-cases, inl, inr, ◌⊎◌,
}
use im_service_modify.Wire.{Bytes, Outcome, ok, refused, panics, stuck}
use im_service_modify.Message.Total.{receivers-ne-stuck}
use im_service_modify.Message.Body.{Message, message, cmd_of}
use im_service_modify.Message.Creators.{Kind, creator, is_external, any_eq, external_list}
use im_service_modify.Message.Frame.{
  to_data, write_message, Receive, from_data_kind, from_data, read_header, receive_limit,
  receive_client_message,
}
use im_service_modify.Wire.Laws.{wire_laws}
use im_service_modify.Prelude.{list_laws}
use im_service_modify.Message.Fits.{FitsMessage}
use im_service_modify.Message.Avoids.{
  panic, Avoids, Avoids-ok, Avoids->>=, Avoids-ne-panics, avoids_rules, im-Avoids,
  app_room_id-Avoids, app_user_id-Avoids, authentication_status-Avoids, authentication_token-Avoids,
  customer_message-Avoids, group_offline_message-Avoids, group_sync_key-Avoids, message_ack-Avoids,
  message_unread_count-Avoids, offline_message1-Avoids, offline_message2-Avoids,
  offline_message3-Avoids, offline_message4-Avoids, room-Avoids, rt_message-Avoids,
  subscribe_message-Avoids, sync_cursor-Avoids, sync_key-Avoids, voip_control-Avoids,
}

-- The types whose decoders call nothing that can panic.
abbrev is_flat : Option Kind → Bool
is_flat (some Kind.app_message) = false
is_flat (some Kind.emessage) = false
is_flat (some Kind.message_batch) = false
is_flat (some Kind.pending_group_message) = false
is_flat _ = true

abbrev all_flat : List ℕ → Bool
all_flat [] = true
all_flat (c ∷ cs) = is_flat (creator c) && all_flat cs

flat_of_any_eq :
    (cmd : ℕ) (cs : List ℕ)
    → all_flat cs ≡ true
    → any_eq cmd cs ≡ true
    → is_flat (creator cmd) ≡ true
flat_of_any_eq cmd [] h e = cc
flat_of_any_eq cmd (c ∷ cs) h e = ground (arith, flat_of_any_eq cmd cs)

-- Every command that a client may send has a flat body.
external_flat : (cmd : ℕ) → is_external cmd ≡ true → is_flat (creator cmd) ≡ true
unfolding is_external creator
external_flat cmd e = flat_of_any_eq cmd external_list refl e

module _ (receive : Receive) (version : ℕ) (buff : Bytes) where
  flat-Avoids :
      (k : Option Kind) → is_flat k ≡ true → Avoids panic (from_data_kind receive k version buff)
  unfolding from_data_kind
  flat-Avoids none h = search avoids_rules
  flat-Avoids (some Kind.ignore_message) h = Avoids-ok panic _
  flat-Avoids (some Kind.im_message) h =
      Avoids->>= panic _ _ (im-Avoids panic version buff) (λ m _. Avoids-ok panic _)
  flat-Avoids (some Kind.system_message) h = Avoids-ok panic _
  flat-Avoids (some Kind.group_notification) h = Avoids-ok panic _
  flat-Avoids (some Kind.message_ack) h =
      Avoids->>= panic _ _ (message_ack-Avoids panic buff) (λ m _. Avoids-ok panic _)
  flat-Avoids (some Kind.authentication_token) h =
      Avoids->>= panic _ _ (authentication_token-Avoids panic buff) (λ m _. Avoids-ok panic _)
  flat-Avoids (some Kind.rt_message) h =
      Avoids->>= panic _ _ (rt_message-Avoids panic buff) (λ m _. Avoids-ok panic _)
  flat-Avoids (some Kind.room) h =
      Avoids->>= panic _ _ (room-Avoids panic buff) (λ m _. Avoids-ok panic _)
  flat-Avoids (some Kind.room_message) h =
      Avoids->>= panic _ _ (rt_message-Avoids panic buff) (λ m _. Avoids-ok panic _)
  flat-Avoids (some Kind.message_unread_count) h =
      Avoids->>= panic _ _ (message_unread_count-Avoids panic buff) (λ m _. Avoids-ok panic _)
  flat-Avoids (some Kind.customer_message) h =
      Avoids->>= panic _ _ (customer_message-Avoids panic buff) (λ m _. Avoids-ok panic _)
  flat-Avoids (some Kind.sync_key) h =
      Avoids->>= panic _ _ (sync_key-Avoids panic buff) (λ m _. Avoids-ok panic _)
  flat-Avoids (some Kind.group_sync_key) h =
      Avoids->>= panic _ _ (group_sync_key-Avoids panic buff) (λ m _. Avoids-ok panic _)
  flat-Avoids (some Kind.voip_control) h =
      Avoids->>= panic _ _ (voip_control-Avoids panic buff) (λ m _. Avoids-ok panic _)
  flat-Avoids (some Kind.authentication_status) h =
      Avoids->>= panic _ _ (authentication_status-Avoids panic buff) (λ m _. Avoids-ok panic _)
  flat-Avoids (some Kind.subscribe_message) h =
      Avoids->>= panic _ _ (subscribe_message-Avoids panic buff) (λ m _. Avoids-ok panic _)
  flat-Avoids (some Kind.app_user_id) h =
      Avoids->>= panic _ _ (app_user_id-Avoids panic buff) (λ m _. Avoids-ok panic _)
  flat-Avoids (some Kind.app_room_id) h =
      Avoids->>= panic _ _ (app_room_id-Avoids panic buff) (λ m _. Avoids-ok panic _)
  flat-Avoids (some Kind.sync_cursor) h =
      Avoids->>= panic _ _ (sync_cursor-Avoids panic buff) (λ m _. Avoids-ok panic _)
  flat-Avoids (some Kind.offline_message1) h =
      Avoids->>= panic _ _ (offline_message1-Avoids panic buff) (λ m _. Avoids-ok panic _)
  flat-Avoids (some Kind.offline_message2) h =
      Avoids->>= panic _ _ (offline_message2-Avoids panic buff) (λ m _. Avoids-ok panic _)
  flat-Avoids (some Kind.offline_message3) h =
      Avoids->>= panic _ _ (offline_message3-Avoids panic buff) (λ m _. Avoids-ok panic _)
  flat-Avoids (some Kind.offline_message4) h =
      Avoids->>= panic _ _ (offline_message4-Avoids panic buff) (λ m _. Avoids-ok panic _)
  flat-Avoids (some Kind.group_offline_message) h =
      Avoids->>= panic _ _ (group_offline_message-Avoids panic buff) (λ m _. Avoids-ok panic _)
  flat-Avoids (some Kind.pending_group_message) h = cc
  flat-Avoids (some Kind.app_message) h = cc
  flat-Avoids (some Kind.emessage) h = cc
  flat-Avoids (some Kind.message_batch) h = cc

external-Avoids :
    (receive : Receive) (cmd version : ℕ) (buff : Bytes)
    → is_external cmd ≡ true
    → Avoids panic (from_data receive cmd version buff)
unfolding from_data
external-Avoids receive cmd version buff h =
    flat-Avoids receive version buff (creator cmd) (external_flat cmd h)

receive_limit-ne-panics :
    (fuel limit : ℕ) (conn : Bytes) → Avoids panic (receive_limit fuel limit true conn)
unfolding receive_limit
receive_limit-ne-panics zero limit conn = record { missed = refl }
receive_limit-ne-panics (suc fuel) limit conn =
    let (len, seq, cmd, version, flag) = read_header (take 12 conn) in
    let text : Bytes = take len (drop 12 conn) in
    record {
      missed = elim (Bool-cases (is_external cmd)) [
        | inl e ↦ ground (
          arith,
          (external-Avoids (receive_limit fuel (32 * 1024) false) cmd version text e).missed,
        )
        | inr e ↦ ground arith
      ];
    }

-- An outcome that is neither a panic nor a lack of fuel is a value or nil.
returned :
    {A : Type 0} (o : Outcome A) → o ≢ panics → o ≢ stuck → ((a : A) × (o ≡ ok a)) ⊎ (o ≡ refused)
returned (ok a) p s = inl (a, refl)
returned refused p s = inr refl
returned panics p s = absurd (p refl)
returned stuck p s = absurd (s refl)

-- Whatever bytes a client sends, `ReceiveClientMessage` ends and does not panic: it returns a
-- message and the bytes behind it, or nil.
pub receive_client_message-ne-panics :
    (conn : Bytes)
    → ((p : Message × Bytes) × (receive_client_message conn ≡ ok p))
      ⊎ (receive_client_message conn ≡ refused)
receive_client_message-ne-panics conn =
    returned (receive_client_message conn)
      (unfold receive_client_message in Avoids-ne-panics (receive_limit-ne-panics _ _ conn))
      (receivers-ne-stuck conn).1

-- A message whose fields fit and whose command is not for clients is refused by
-- `ReceiveClientMessage`.
pub receive_client_message_internal :
    (m : Message) (rest : Bytes)
    → FitsMessage (32 * 1024) m
    → is_external (cmd_of m) ≡ false
    → receive_client_message (write_message m ++ rest) ≡ refused
unfolding receive_client_message receive_limit read_header FitsMessage to_data
receive_client_message_internal (message cmd seq version flag body) rest
      (hc, hs, hv, _, kind, hl, hb) e =
    let l : length (to_data version body) < 256 ^ 4 = omega arith in
    simp (append_assoc, wire_laws, list_laws, hc, hs, hv, l, e) (ground arith)
