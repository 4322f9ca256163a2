-- ===== src/Message/OfflineLaws.antt =====
-- The decoders of the queue links undo the encoders, up to the fields that a layout does not have.
use im_service_modify.Prelude.{◌^◌, ◌<◌, ◌≡◌, ◌++◌}
use im_service_modify.Wire.{write, ok}
use im_service_modify.Message.Offline.{
  OfflineMessage, GroupOfflineMessage, to_data_group_offline_message,
  from_data_group_offline_message, to_data_offline_message1, from_data_offline_message1,
  to_data_offline_message2, from_data_offline_message2, to_data_offline_message3,
  from_data_offline_message3, to_data_offline_message4, from_data_offline_message4,
}
use im_service_modify.Wire.Laws.{wire_laws}

-- The integers of OfflineMessage are in range.
pub record FitsOfflineMessage (m : OfflineMessage) : Type 0 where
  pub appid : m.appid < 256 ^ 8
  pub receiver : m.receiver < 256 ^ 8
  pub msgid : m.msgid < 256 ^ 8
  pub device_id : m.device_id < 256 ^ 8
  pub seq_id : m.seq_id < 256 ^ 8
  pub prev_msgid : m.prev_msgid < 256 ^ 8
  pub prev_peer_msgid : m.prev_peer_msgid < 256 ^ 8
  pub prev_batch_msgid : m.prev_batch_msgid < 256 ^ 8

pub from-to_data_offline_message1 :
    (m : OfflineMessage)
    → FitsOfflineMessage m
    → from_data_offline_message1 (to_data_offline_message1 m)
      ≡ ok (record m { seq_id = 0; prev_peer_msgid = m.prev_msgid; prev_batch_msgid = 0 })
unfolding from_data_offline_message1 to_data_offline_message1
from-to_data_offline_message1 m f =
    simp (wire_laws, f.appid, f.receiver, f.msgid, f.device_id, f.prev_msgid)

pub from-to_data_offline_message2 :
    (m : OfflineMessage)
    → FitsOfflineMessage m
    → from_data_offline_message2 (to_data_offline_message2 m)
      ≡ ok (record m { seq_id = 0; prev_batch_msgid = 0 })
unfolding from_data_offline_message2 to_data_offline_message2
from-to_data_offline_message2 m f =
    simp (wire_laws, f.appid, f.receiver, f.msgid, f.device_id, f.prev_msgid, f.prev_peer_msgid)

pub from-to_data_offline_message3 :
    (m : OfflineMessage)
    → FitsOfflineMessage m
    → from_data_offline_message3 (to_data_offline_message3 m) ≡ ok (record m { seq_id = 0 })
unfolding from_data_offline_message3 to_data_offline_message3
from-to_data_offline_message3 m f = simp (
  wire_laws, f.appid, f.receiver, f.msgid, f.device_id, f.prev_msgid, f.prev_peer_msgid,
  f.prev_batch_msgid,
)

pub from-to_data_offline_message4 :
    (m : OfflineMessage)
    → FitsOfflineMessage m
    → from_data_offline_message4 (to_data_offline_message4 m) ≡ ok m
unfolding from_data_offline_message4 to_data_offline_message4
from-to_data_offline_message4 m f = simp (
  wire_laws, f.appid, f.receiver, f.msgid, f.device_id, f.seq_id, f.prev_msgid, f.prev_peer_msgid,
  f.prev_batch_msgid,
)

-- The integers of GroupOfflineMessage are in range.
pub record FitsGroupOfflineMessage (m : GroupOfflineMessage) : Type 0 where
  pub appid : m.appid < 256 ^ 8
  pub receiver : m.receiver < 256 ^ 8
  pub msgid : m.msgid < 256 ^ 8
  pub gid : m.gid < 256 ^ 8
  pub device_id : m.device_id < 256 ^ 8
  pub prev_msgid : m.prev_msgid < 256 ^ 8

pub from-to_data_group_offline_message :
    (m : GroupOfflineMessage)
    → FitsGroupOfflineMessage m
    → from_data_group_offline_message (to_data_group_offline_message m) ≡ ok m
unfolding from_data_group_offline_message to_data_group_offline_message
from-to_data_group_offline_message m f =
    simp (wire_laws, f.appid, f.receiver, f.msgid, f.gid, f.device_id, f.prev_msgid)

-- A link of the oldest layout, without `device_id`, is decoded with its fields, with `device_id`
-- 0 and with the previous message of the own queue as that of the peer queue.
pub from_data_offline_message1_legacy :
    (m : OfflineMessage)
    → FitsOfflineMessage m
    → from_data_offline_message1
        (write 8 m.appid ++ (write 8 m.receiver ++ (write 8 m.msgid ++ write 8 m.prev_msgid)))
      ≡ ok (record m {
        device_id = 0;
        seq_id = 0;
        prev_peer_msgid = m.prev_msgid;
        prev_batch_msgid = 0;
      })
unfolding from_data_offline_message1
from_data_offline_message1_legacy m f = simp (wire_laws, f.appid, f.receiver, f.msgid, f.prev_msgid)
