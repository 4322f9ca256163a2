-- ===== src/Message/Offline.antt =====
-- ServerIMS/model/storage_message.go: the links of the message queues on disk, in the four layouts
-- of `OfflineMessage` and in that of `GroupOfflineMessage`. The two oldest layouts had no
-- `device_id`: their length tells.
use im_service_modify.Prelude.{ℕ, ◌++◌, ltb, ◌==◌, length, if◌then◌else◌}
use im_service_modify.Wire.{Bytes, write, read, Outcome, ok, refused}

pub record OfflineMessage : Type 0 where
  pub appid : ℕ
  pub receiver : ℕ
  pub msgid : ℕ
  pub device_id : ℕ
  pub seq_id : ℕ
  pub prev_msgid : ℕ
  pub prev_peer_msgid : ℕ
  pub prev_batch_msgid : ℕ

unfoldable pub to_data_offline_message1 : OfflineMessage → Bytes
to_data_offline_message1 m =
    write 8 m.appid
    ++ (write 8 m.receiver ++ (write 8 m.msgid ++ (write 8 m.device_id ++ write 8 m.prev_msgid)))

unfoldable pub from_data_offline_message1 : Bytes → Outcome OfflineMessage
from_data_offline_message1 buff =
    if ltb (length buff) 32
    then refused
    else (let (appid, b1) = read 8 0 buff in
        let (receiver, b2) = read 8 0 b1 in
        let (msgid, b3) = read 8 0 b2 in
        let (device_id, b4) = if length buff == 40 then read 8 0 b3 else (0, b3) in
        let (prev_msgid, _) = read 8 0 b4 in
        ok (record {
          appid = appid;
          receiver = receiver;
          msgid = msgid;
          device_id = device_id;
          seq_id = 0;
          prev_msgid = prev_msgid;
          prev_peer_msgid = prev_msgid;
          prev_batch_msgid = 0;
        }))

unfoldable pub to_data_offline_message2 : OfflineMessage → Bytes
to_data_offline_message2 m =
    write 8 m.appid
    ++ (write 8 m.receiver
        ++ (write 8 m.msgid
            ++ (write 8 m.device_id ++ (write 8 m.prev_msgid ++ write 8 m.prev_peer_msgid))))

unfoldable pub from_data_offline_message2 : Bytes → Outcome OfflineMessage
from_data_offline_message2 buff =
    if ltb (length buff) 48
    then refused
    else (let (appid, b1) = read 8 0 buff in
        let (receiver, b2) = read 8 0 b1 in
        let (msgid, b3) = read 8 0 b2 in
        let (device_id, b4) = read 8 0 b3 in
        let (prev_msgid, b5) = read 8 0 b4 in
        let (prev_peer_msgid, _) = read 8 0 b5 in
        ok (record {
          appid = appid;
          receiver = receiver;
          msgid = msgid;
          device_id = device_id;
          prev_msgid = prev_msgid;
          prev_peer_msgid = prev_peer_msgid;
          seq_id = 0;
          prev_batch_msgid = 0;
        }))

unfoldable pub to_data_offline_message3 : OfflineMessage → Bytes
to_data_offline_message3 m =
    write 8 m.appid
    ++ (write 8 m.receiver
        ++ (write 8 m.msgid
            ++ (write 8 m.device_id
                ++ (write 8 m.prev_msgid
                    ++ (write 8 m.prev_peer_msgid ++ write 8 m.prev_batch_msgid)))))

unfoldable pub from_data_offline_message3 : Bytes → Outcome OfflineMessage
from_data_offline_message3 buff =
    if ltb (length buff) 56
    then refused
    else (let (appid, b1) = read 8 0 buff in
        let (receiver, b2) = read 8 0 b1 in
        let (msgid, b3) = read 8 0 b2 in
        let (device_id, b4) = read 8 0 b3 in
        let (prev_msgid, b5) = read 8 0 b4 in
        let (prev_peer_msgid, b6) = read 8 0 b5 in
        let (prev_batch_msgid, _) = read 8 0 b6 in
        ok (record {
          appid = appid;
          receiver = receiver;
          msgid = msgid;
          device_id = device_id;
          prev_msgid = prev_msgid;
          prev_peer_msgid = prev_peer_msgid;
          prev_batch_msgid = prev_batch_msgid;
          seq_id = 0;
        }))

unfoldable pub to_data_offline_message4 : OfflineMessage → Bytes
to_data_offline_message4 m =
    write 8 m.appid
    ++ (write 8 m.receiver
        ++ (write 8 m.msgid
            ++ (write 8 m.device_id
                ++ (write 8 m.seq_id
                    ++ (write 8 m.prev_msgid
                        ++ (write 8 m.prev_peer_msgid ++ write 8 m.prev_batch_msgid))))))

unfoldable pub from_data_offline_message4 : Bytes → Outcome OfflineMessage
from_data_offline_message4 buff =
    if ltb (length buff) 64
    then refused
    else (let (appid, b1) = read 8 0 buff in
        let (receiver, b2) = read 8 0 b1 in
        let (msgid, b3) = read 8 0 b2 in
        let (device_id, b4) = read 8 0 b3 in
        let (seq_id, b5) = read 8 0 b4 in
        let (prev_msgid, b6) = read 8 0 b5 in
        let (prev_peer_msgid, b7) = read 8 0 b6 in
        let (prev_batch_msgid, _) = read 8 0 b7 in
        ok (record {
          appid = appid;
          receiver = receiver;
          msgid = msgid;
          device_id = device_id;
          seq_id = seq_id;
          prev_msgid = prev_msgid;
          prev_peer_msgid = prev_peer_msgid;
          prev_batch_msgid = prev_batch_msgid;
        }))

pub record GroupOfflineMessage : Type 0 where
  pub appid : ℕ
  pub receiver : ℕ
  pub msgid : ℕ
  pub gid : ℕ
  pub device_id : ℕ
  pub prev_msgid : ℕ

unfoldable pub to_data_group_offline_message : GroupOfflineMessage → Bytes
to_data_group_offline_message m =
    write 8 m.appid
    ++ (write 8 m.receiver
        ++ (write 8 m.msgid ++ (write 8 m.gid ++ (write 8 m.device_id ++ write 8 m.prev_msgid))))

unfoldable pub from_data_group_offline_message : Bytes → Outcome GroupOfflineMessage
from_data_group_offline_message buff =
    if ltb (length buff) 40
    then refused
    else (let (appid, b1) = read 8 0 buff in
        let (receiver, b2) = read 8 0 b1 in
        let (msgid, b3) = read 8 0 b2 in
        let (gid, b4) = read 8 0 b3 in
        let (device_id, b5) = if length buff == 48 then read 8 0 b4 else (0, b4) in
        let (prev_msgid, _) = read 8 0 b5 in
        ok (record {
          appid = appid;
          receiver = receiver;
          msgid = msgid;
          gid = gid;
          device_id = device_id;
          prev_msgid = prev_msgid;
        }))
