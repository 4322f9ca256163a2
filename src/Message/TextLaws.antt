-- ===== src/Message/TextLaws.antt =====
-- The decoders of text messages undo the encoders. The old layout of `IMMessage` loses the time,
-- and `VOIPControl` must carry something.
use im_service_modify.Prelude.{◌^◌, ◌<◌, ◌≡◌, ◌≢◌, [], arith}
use im_service_modify.Wire.{ok}
use im_service_modify.Message.Text.{
  ImMessage, to_data_im_v0, from_data_im_v0, to_data_im_v1, from_data_im_v1, RtMessage,
  to_data_rt_message, from_data_rt_message, CustomerMessage, to_data_customer_message,
  from_data_customer_message, VoipControl, to_data_voip_control, from_data_voip_control,
}
use im_service_modify.Wire.Laws.{wire_laws}

-- The integers of ImMessage are in range.
pub record FitsImMessage (m : ImMessage) : Type 0 where
  pub sender : m.sender < 256 ^ 8
  pub receiver : m.receiver < 256 ^ 8
  pub timestamp : m.timestamp < 256 ^ 4
  pub msgid : m.msgid < 256 ^ 4

pub from-to_data_im_v0 :
    (m : ImMessage)
    → FitsImMessage m
    → from_data_im_v0 (to_data_im_v0 m) ≡ ok (record m { timestamp = 0 })
unfolding from_data_im_v0 to_data_im_v0
from-to_data_im_v0 m f = simp (wire_laws, f.sender, f.receiver, f.msgid) (ground arith)

pub from-to_data_im_v1 :
    (m : ImMessage) → FitsImMessage m → from_data_im_v1 (to_data_im_v1 m) ≡ ok m
unfolding from_data_im_v1 to_data_im_v1
from-to_data_im_v1 m f = simp (wire_laws, f.sender, f.receiver, f.timestamp, f.msgid) (ground arith)

-- The integers of RtMessage are in range.
pub record FitsRtMessage (m : RtMessage) : Type 0 where
  pub sender : m.sender < 256 ^ 8
  pub receiver : m.receiver < 256 ^ 8

pub from-to_data_rt_message :
    (m : RtMessage) → FitsRtMessage m → from_data_rt_message (to_data_rt_message m) ≡ ok m
unfolding from_data_rt_message to_data_rt_message
from-to_data_rt_message m f = simp (wire_laws, f.sender, f.receiver) (ground arith)

-- The integers of CustomerMessage are in range.
pub record FitsCustomerMessage (m : CustomerMessage) : Type 0 where
  pub customer_appid : m.customer_appid < 256 ^ 8
  pub customer_id : m.customer_id < 256 ^ 8
  pub store_id : m.store_id < 256 ^ 8
  pub seller_id : m.seller_id < 256 ^ 8
  pub timestamp : m.timestamp < 256 ^ 4

pub from-to_data_customer_message :
    (m : CustomerMessage)
    → FitsCustomerMessage m
    → from_data_customer_message (to_data_customer_message m) ≡ ok m
unfolding from_data_customer_message to_data_customer_message
from-to_data_customer_message m f =
    simp (wire_laws, f.customer_appid, f.customer_id, f.store_id, f.seller_id, f.timestamp)
      (ground arith)

-- The integers of VoipControl are in range.
pub record FitsVoipControl (m : VoipControl) : Type 0 where
  pub sender : m.sender < 256 ^ 8
  pub receiver : m.receiver < 256 ^ 8

pub from-to_data_voip_control :
    (m : VoipControl)
    → FitsVoipControl m
    → m.content ≢ []
    → from_data_voip_control (to_data_voip_control m) ≡ ok m
unfolding from_data_voip_control to_data_voip_control
from-to_data_voip_control m f h = simp (wire_laws, f.sender, f.receiver) (ground arith)
