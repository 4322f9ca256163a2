-- ===== src/Message/Text.antt =====
-- serverCommon/model/message.go: the messages that carry text, `IMMessage` (both versions of its
-- layout), `RTMessage`, `CustomerMessage` and `VOIPControl`. Text is its bytes.
use im_service_modify.Prelude.{ℕ, ◌++◌, ltb, leb, ◌==◌, length, take, drop, if◌then◌else◌}
use im_service_modify.Wire.{Bytes, write, read, Outcome, ok, refused}

pub record ImMessage : Type 0 where
  pub sender : ℕ
  pub receiver : ℕ
  pub timestamp : ℕ
  pub msgid : ℕ
  pub content : Bytes

-- The old layout has no time.
unfoldable pub to_data_im_v0 : ImMessage → Bytes
to_data_im_v0 m = write 8 m.sender ++ (write 8 m.receiver ++ (write 4 m.msgid ++ m.content))

unfoldable pub from_data_im_v0 : Bytes → Outcome ImMessage
from_data_im_v0 buff =
    if ltb (length buff) 20
    then refused
    else (let (sender, b1) = read 8 0 buff in
        let (receiver, b2) = read 8 0 b1 in
        let (msgid, _) = read 4 0 b2 in
        ok (record {
          sender = sender;
          receiver = receiver;
          msgid = msgid;
          timestamp = 0;
          content = drop 20 buff;
        }))

unfoldable pub to_data_im_v1 : ImMessage → Bytes
to_data_im_v1 m =
    write 8 m.sender
    ++ (write 8 m.receiver ++ (write 4 m.timestamp ++ (write 4 m.msgid ++ m.content)))

unfoldable pub from_data_im_v1 : Bytes → Outcome ImMessage
from_data_im_v1 buff =
    if ltb (length buff) 24
    then refused
    else (let (sender, b1) = read 8 0 buff in
        let (receiver, b2) = read 8 0 b1 in
        let (timestamp, b3) = read 4 0 b2 in
        let (msgid, _) = read 4 0 b3 in
        ok (record {
          sender = sender;
          receiver = receiver;
          timestamp = timestamp;
          msgid = msgid;
          content = drop 24 buff;
        }))

unfoldable pub to_data_im : ℕ → ImMessage → Bytes
to_data_im version m = if version == 0 then to_data_im_v0 m else to_data_im_v1 m

unfoldable pub from_data_im : ℕ → Bytes → Outcome ImMessage
from_data_im version buff = if version == 0 then from_data_im_v0 buff else from_data_im_v1 buff

pub record RtMessage : Type 0 where
  pub sender : ℕ
  pub receiver : ℕ
  pub content : Bytes

unfoldable pub to_data_rt_message : RtMessage → Bytes
to_data_rt_message m = write 8 m.sender ++ (write 8 m.receiver ++ m.content)

unfoldable pub from_data_rt_message : Bytes → Outcome RtMessage
from_data_rt_message buff =
    if ltb (length buff) 16
    then refused
    else (let (sender, b1) = read 8 0 buff in
        let (receiver, _) = read 8 0 b1 in
        ok (record { sender = sender; receiver = receiver; content = drop 16 buff }))

pub record CustomerMessage : Type 0 where
  pub customer_appid : ℕ
  pub customer_id : ℕ
  pub store_id : ℕ
  pub seller_id : ℕ
  pub timestamp : ℕ
  pub content : Bytes

unfoldable pub to_data_customer_message : CustomerMessage → Bytes
to_data_customer_message m =
    write 8 m.customer_appid
    ++ (write 8 m.customer_id
        ++ (write 8 m.store_id ++ (write 8 m.seller_id ++ (write 4 m.timestamp ++ m.content))))

unfoldable pub from_data_customer_message : Bytes → Outcome CustomerMessage
from_data_customer_message buff =
    if ltb (length buff) 36
    then refused
    else (let (customer_appid, b1) = read 8 0 buff in
        let (customer_id, b2) = read 8 0 b1 in
        let (store_id, b3) = read 8 0 b2 in
        let (seller_id, b4) = read 8 0 b3 in
        let (timestamp, _) = read 4 0 b4 in
        ok (record {
          customer_appid = customer_appid;
          customer_id = customer_id;
          store_id = store_id;
          seller_id = seller_id;
          timestamp = timestamp;
          content = drop 36 buff;
        }))

pub record VoipControl : Type 0 where
  pub sender : ℕ
  pub receiver : ℕ
  pub content : Bytes

unfoldable pub to_data_voip_control : VoipControl → Bytes
to_data_voip_control m = write 8 m.sender ++ (write 8 m.receiver ++ m.content)

-- Here an empty content is refused.
unfoldable pub from_data_voip_control : Bytes → Outcome VoipControl
from_data_voip_control buff =
    if leb (length buff) 16
    then refused
    else (let (sender, b1) = read 8 0 (take 16 buff) in
        let (receiver, _) = read 8 0 b1 in
        ok (record { sender = sender; receiver = receiver; content = drop 16 buff }))
