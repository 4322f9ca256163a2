-- ===== src/Channel/Delivering.antt =====
-- From every state that can be reached, sending and taking messages alone ends with none left.
use im_service_modify.Channel.{Channel}
use im_service_modify.Message.Body.{Message}
use im_service_modify.Channel.System.{System}
