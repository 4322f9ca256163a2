-- ===== src/Message/Avoids.antt =====
-- What a decoder never does, by rules for its branches and steps; the decoders of flat messages
-- neither panic nor recur.
use im_service_modify.Prelude.{ℕ, ◌≡◌, ◌≢◌, refl, ap, Bool, true, false, if◌then◌else◌}
use im_service_modify.Wire.{Bytes, Outcome, ok, refused, panics, stuck, ◌>>=◌}
use im_service_modify.Message.Text.{
  from_data_im, from_data_im_v0, from_data_im_v1, from_data_rt_message, from_data_customer_message,
  from_data_voip_control,
}
use im_service_modify.Message.Auth.{from_data_authentication_token}
use im_service_modify.Message.Offline.{
  from_data_offline_message1, from_data_offline_message2, from_data_offline_message3,
  from_data_offline_message4, from_data_group_offline_message,
}
use im_service_modify.Message.Pending.{from_data_pending_group_message}
use im_service_modify.Message.Fixed.{
  from_data_message_ack, from_data_message_unread_count, from_data_room, from_data_app_user_id,
  from_data_app_room_id, from_data_sync_key, from_data_group_sync_key,
  from_data_authentication_status, from_data_subscribe_message, from_data_sync_cursor,
}

pub data Fault : Type 0 where
  out_of_fuel panic : Fault

abbrev hits {ℓ} : {A : Type ℓ} → Fault → Outcome A → Bool
hits out_of_fuel stuck = true
hits panic panics = true
hits _ _ = false

pub record Avoids {ℓ} {A : Type ℓ} (fault : Fault) (r : Outcome A) : Type 0 where
  pub missed : hits fault r ≡ false

pub Avoids-ok {ℓ} : {A : Type ℓ} (fault : Fault) (a : A) → Avoids fault (ok a)
Avoids-ok out_of_fuel a = record { missed = refl }
Avoids-ok panic a = record { missed = refl }

pub Avoids-refused {ℓ} : {A : Type ℓ} (fault : Fault) → Avoids {A = A} fault refused
Avoids-refused out_of_fuel = record { missed = refl }
Avoids-refused panic = record { missed = refl }

pub Avoids-panics {ℓ} : {A : Type ℓ} → Avoids {A = A} out_of_fuel panics
Avoids-panics = record { missed = refl }

pub Avoids-if {ℓ} :
    {A : Type ℓ} (fault : Fault) (b : Bool) (x y : Outcome A)
    → Avoids fault x
    → Avoids fault y
    → Avoids fault (if b then x else y)
Avoids-if fault true x y p q = p
Avoids-if fault false x y p q = q

pub Avoids->>= {ℓ κ} :
    {A : Type ℓ} {B : Type κ} (fault : Fault) (r : Outcome A) (f : A → Outcome B)
    → Avoids fault r
    → ((a : A) → r ≡ ok a → Avoids fault (f a))
    → Avoids fault (r >>= f)
Avoids->>= fault (ok a) f p q = q a refl
Avoids->>= fault refused f p q = Avoids-refused fault
Avoids->>= out_of_fuel panics f p q = Avoids-panics
Avoids->>= panic panics f p q = cc p.missed
Avoids->>= out_of_fuel stuck f p q = cc p.missed
Avoids->>= panic stuck f p q = record { missed = refl }

pub Avoids-ne-stuck {ℓ} : {A : Type ℓ} {r : Outcome A} → Avoids out_of_fuel r → r ≢ stuck
Avoids-ne-stuck h e = cc (h.missed, ap (hits out_of_fuel) e)

pub Avoids-ne-panics {ℓ} : {A : Type ℓ} {r : Outcome A} → Avoids panic r → r ≢ panics
Avoids-ne-panics h e = cc (h.missed, ap (hits panic) e)

pub ruleset avoids_rules = (Avoids-ok, Avoids-refused, Avoids-panics, Avoids-if, Avoids->>=)

module _ (fault : Fault) where
  pub app_room_id-Avoids : (buff : Bytes) → Avoids fault (from_data_app_room_id buff)
  unfolding from_data_app_room_id
  app_room_id-Avoids buff = search avoids_rules

  pub app_user_id-Avoids : (buff : Bytes) → Avoids fault (from_data_app_user_id buff)
  unfolding from_data_app_user_id
  app_user_id-Avoids buff = search avoids_rules

  pub authentication_status-Avoids :
      (buff : Bytes) → Avoids fault (from_data_authentication_status buff)
  unfolding from_data_authentication_status
  authentication_status-Avoids buff = search avoids_rules

  pub authentication_token-Avoids :
      (buff : Bytes) → Avoids fault (from_data_authentication_token buff)
  unfolding from_data_authentication_token
  authentication_token-Avoids buff = search avoids_rules

  pub customer_message-Avoids : (buff : Bytes) → Avoids fault (from_data_customer_message buff)
  unfolding from_data_customer_message
  customer_message-Avoids buff = search avoids_rules

  pub group_offline_message-Avoids :
      (buff : Bytes) → Avoids fault (from_data_group_offline_message buff)
  unfolding from_data_group_offline_message
  group_offline_message-Avoids buff = search avoids_rules

  pub group_sync_key-Avoids : (buff : Bytes) → Avoids fault (from_data_group_sync_key buff)
  unfolding from_data_group_sync_key
  group_sync_key-Avoids buff = search avoids_rules

  pub message_ack-Avoids : (buff : Bytes) → Avoids fault (from_data_message_ack buff)
  unfolding from_data_message_ack
  message_ack-Avoids buff = search avoids_rules

  pub message_unread_count-Avoids :
      (buff : Bytes) → Avoids fault (from_data_message_unread_count buff)
  unfolding from_data_message_unread_count
  message_unread_count-Avoids buff = search avoids_rules

  pub offline_message1-Avoids : (buff : Bytes) → Avoids fault (from_data_offline_message1 buff)
  unfolding from_data_offline_message1
  offline_message1-Avoids buff = search avoids_rules

  pub offline_message2-Avoids : (buff : Bytes) → Avoids fault (from_data_offline_message2 buff)
  unfolding from_data_offline_message2
  offline_message2-Avoids buff = search avoids_rules

  pub offline_message3-Avoids : (buff : Bytes) → Avoids fault (from_data_offline_message3 buff)
  unfolding from_data_offline_message3
  offline_message3-Avoids buff = search avoids_rules

  pub offline_message4-Avoids : (buff : Bytes) → Avoids fault (from_data_offline_message4 buff)
  unfolding from_data_offline_message4
  offline_message4-Avoids buff = search avoids_rules

  pub room-Avoids : (buff : Bytes) → Avoids fault (from_data_room buff)
  unfolding from_data_room
  room-Avoids buff = search avoids_rules

  pub rt_message-Avoids : (buff : Bytes) → Avoids fault (from_data_rt_message buff)
  unfolding from_data_rt_message
  rt_message-Avoids buff = search avoids_rules

  pub subscribe_message-Avoids : (buff : Bytes) → Avoids fault (from_data_subscribe_message buff)
  unfolding from_data_subscribe_message
  subscribe_message-Avoids buff = search avoids_rules

  pub sync_cursor-Avoids : (buff : Bytes) → Avoids fault (from_data_sync_cursor buff)
  unfolding from_data_sync_cursor
  sync_cursor-Avoids buff = search avoids_rules

  pub sync_key-Avoids : (buff : Bytes) → Avoids fault (from_data_sync_key buff)
  unfolding from_data_sync_key
  sync_key-Avoids buff = search avoids_rules

  pub voip_control-Avoids : (buff : Bytes) → Avoids fault (from_data_voip_control buff)
  unfolding from_data_voip_control
  voip_control-Avoids buff = search avoids_rules

  pub im-Avoids : (version : ℕ) (buff : Bytes) → Avoids fault (from_data_im version buff)
  unfolding from_data_im from_data_im_v0 from_data_im_v1
  im-Avoids version buff = search avoids_rules

pub pending_group_message-Avoids :
    (buff : Bytes) → Avoids out_of_fuel (from_data_pending_group_message buff)
unfolding from_data_pending_group_message
pending_group_message-Avoids buff = search avoids_rules
