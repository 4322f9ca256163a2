-- ===== src/Tests/MessageRuns.antt =====
-- The theorems of the message format at concrete inputs.
use im_service_modify.Prelude.{
  ◌⊎◌, ℕ, zero, suc, ◌*◌, ◌<◌, ◌≡◌, ◌≢◌, refl, List, [], ◌∷◌, ◌++◌, arith, length,
}
use im_service_modify.Wire.{Bytes, write, ok, refused, panics, stuck}
use im_service_modify.Message.Body.{Message, Body, message, ptr, no_messages, more_messages}
use im_service_modify.Message.Text.{to_data_im, to_data_im_v1}
use im_service_modify.Message.Auth.{
  AuthenticationToken, to_data_authentication_token, from_data_authentication_token,
}
use im_service_modify.Message.AuthLaws.{from-to_data_authentication_token}
use im_service_modify.Message.Offline.{OfflineMessage, from_data_offline_message1}
use im_service_modify.Message.OfflineLaws.{from_data_offline_message1_legacy}
use im_service_modify.Message.Pending.{
  PendingGroupMessage, to_data_pending_group_message, from_data_pending_group_message,
}
use im_service_modify.Message.PendingLaws.{
  FitsPendingGroupMessage, AllIds, from-to_data_pending_group_message,
  from-to_data_pending_group_message_panics,
}
use im_service_modify.Message.Creators.{
  creator, kind_of, is_external, msg_im, msg_publish, msg_storage_sync_message_batch,
}
use im_service_modify.Message.Frame.{
  to_data, write_message, receive_message, receive_client_message, receive_storage_sync_message,
}
use im_service_modify.Message.Fits.{FitsMessage}
use im_service_modify.Message.FrameLaws.{
  receive_message-write_message, receive_client_message-write_message,
}
use im_service_modify.Message.Total.{receivers-ne-stuck}
use im_service_modify.Message.Panics.{
  receive_client_message-ne-panics, receive_client_message_internal,
}
use im_service_modify.Message.Append.{receive_message-append}

abbrev hello : Message
hello = message msg_im 1 1 0 (
    Body.im_message
      (record { sender = 1; receiver = 2; timestamp = 5; msgid = 0; content = 104 ∷ 105 ∷ [] }))

-- A message inside another, as the route server sends it on.
abbrev published : Message
published = message msg_publish 2 1 0 (Body.app_message 7 2 32 3 1000 (ptr hello))

-- Two messages for a slave.
abbrev batch : Message
batch =
    message msg_storage_sync_message_batch 3 0 0
      (Body.message_batch 32 78 (more_messages hello (more_messages hello no_messages)))

hello-Fits : (limit : ℕ) → 26 < limit → FitsMessage limit hello
unfolding FitsMessage creator kind_of to_data to_data_im to_data_im_v1 write
hello-Fits limit h = (
  omega arith,
  omega arith,
  omega arith,
  omega arith,
  refl,
  h,
  (
    record {
      sender = omega arith;
      receiver = omega arith;
      timestamp = omega arith;
      msgid = omega arith;
    },
    λ e. absurd (omega arith),
  ),
)

published-Fits : FitsMessage (32 * 1024) published
unfolding FitsMessage creator kind_of to_data to_data_im to_data_im_v1 write
published-Fits = (
  omega arith,
  omega arith,
  omega arith,
  omega arith,
  refl,
  omega arith,
  (
    omega arith,
    omega arith,
    omega arith,
    omega arith,
    omega arith,
    (omega arith, hello-Fits (32 * 1024) (omega arith)),
  ),
)

receive_message-write_message_example :
    receive_message (write_message published ++ 9 ∷ []) ≡ ok (published, 9 ∷ [])
receive_message-write_message_example =
    receive_message-write_message published (9 ∷ []) published-Fits

receive_client_message-write_message_example :
    receive_client_message (write_message hello ++ 9 ∷ []) ≡ ok (hello, 9 ∷ [])
unfolding is_external
receive_client_message-write_message_example =
    receive_client_message-write_message hello (9 ∷ []) (hello-Fits (32 * 1024) (omega arith)) refl

-- The header of a batch that claims 2 ^ 31 - 1 messages.
abbrev greedy : Bytes
greedy = 0 ∷ 0 ∷ 0 ∷ 20 ∷ 0 ∷ 0 ∷ 0 ∷ 1 ∷ 222 ∷ 0 ∷ 0 ∷ 0 ∷ 255 ∷ []

receivers-ne-stuck_example :
    (receive_message greedy ≢ stuck)
    × (receive_client_message greedy ≢ stuck)
    × (receive_storage_sync_message greedy ≢ stuck)
receivers-ne-stuck_example = receivers-ne-stuck greedy

receive_client_message-ne-panics_example :
    ((p : Message × Bytes) × (receive_client_message greedy ≡ ok p))
    ⊎ (receive_client_message greedy ≡ refused)
receive_client_message-ne-panics_example = receive_client_message-ne-panics greedy

receive_client_message_internal_example :
    receive_client_message (write_message published ++ []) ≡ refused
unfolding is_external
receive_client_message_internal_example =
    receive_client_message_internal published [] published-Fits refl

receive_message-append_example :
    receive_message ((write_message published ++ 9 ∷ []) ++ 8 ∷ []) ≡ ok (published, 9 ∷ 8 ∷ [])
receive_message-append_example =
    receive_message-append (write_message published ++ 9 ∷ []) (8 ∷ []) (9 ∷ []) published
      receive_message-write_message_example

abbrev token : AuthenticationToken
token = record { token = 97 ∷ 98 ∷ []; platform_id = 2; device_id = 99 ∷ [] }

from-to_data_authentication_token_example :
    from_data_authentication_token (to_data_authentication_token token) ≡ ok token
from-to_data_authentication_token_example =
    from-to_data_authentication_token token
      (record { platform_id = omega arith; token = omega arith; device_id = omega arith })

abbrev old_link : OfflineMessage
old_link = record {
  appid = 7;
  receiver = 1;
  msgid = 32;
  device_id = 3;
  seq_id = 4;
  prev_msgid = 5;
  prev_peer_msgid = 6;
  prev_batch_msgid = 7;
}

from_data_offline_message1_legacy_example :
    from_data_offline_message1 (write 8 7 ++ (write 8 1 ++ (write 8 32 ++ write 8 5)))
    ≡ ok (record old_link { device_id = 0; seq_id = 0; prev_peer_msgid = 5; prev_batch_msgid = 0 })
from_data_offline_message1_legacy_example = from_data_offline_message1_legacy old_link (record {
  appid = omega arith;
  receiver = omega arith;
  msgid = omega arith;
  device_id = omega arith;
  seq_id = omega arith;
  prev_msgid = omega arith;
  prev_peer_msgid = omega arith;
  prev_batch_msgid = omega arith;
})

-- A group of n members, all of them user 1.
ones : ℕ → List ℕ
ones zero = []
ones (suc n) = 1 ∷ ones n

length-ones : (n : ℕ) → length (ones n) ≡ n
unfolding ones
length-ones zero = refl
length-ones (suc n) = omega (arith, length-ones n)

ones-AllIds : (n : ℕ) → AllIds (ones n)
unfolding ones
ones-AllIds zero = tt
ones-AllIds (suc n) = (omega arith, ones-AllIds n)

abbrev pending : ℕ → PendingGroupMessage
pending n = record {
  appid = 7;
  sender = 1;
  device_id = 3;
  gid = 4;
  timestamp = 5;
  members = ones n;
  content = 104 ∷ [];
}

pending-Fits : (n : ℕ) → FitsPendingGroupMessage (pending n)
pending-Fits n = record {
  appid = omega arith;
  sender = omega arith;
  device_id = omega arith;
  gid = omega arith;
  timestamp = omega arith;
  members = ones-AllIds n;
}

from-to_data_pending_group_message_example :
    from_data_pending_group_message (to_data_pending_group_message (pending 4091))
    ≡ ok (pending 4091)
from-to_data_pending_group_message_example =
    from-to_data_pending_group_message (pending 4091) (pending-Fits 4091)
      (omega (arith, length-ones 4091))

from-to_data_pending_group_message_panics_example :
    from_data_pending_group_message (to_data_pending_group_message (pending 5000)) ≡ panics
from-to_data_pending_group_message_panics_example =
    from-to_data_pending_group_message_panics (pending 5000) (pending-Fits 5000)
      (omega (arith, length-ones 5000)) (omega (arith, length-ones 5000))
