-- ===== src/Storage/Peer.antt =====
-- ServerIMS/model/storage_peer.go and storage_model.go: the queues of a user's messages. The index
-- holds, for each user, the ids of the newest links; a link names its message and the links before
-- it in the three queues (all messages, peer messages only, every thousandth message).
-- A map of Go is a function; an absent user has none.
use im_service_modify.Prelude.{
  ℕ, ◌+◌, ◌/◌, ◌%◌, ◌^◌, Bool, ◌&&◌, ◌||◌, ltb, ◌==◌, if◌then◌else◌, Option, none, some,
}
use im_service_modify.Message.Body.{Message, Body, message, cmd_of, body_of, flag_of}
use im_service_modify.Message.Creators.{
  msg_group_im, msg_offline, msg_offline_v2, msg_offline_v3, msg_offline_v4,
}
use im_service_modify.Message.Offline.{OfflineMessage}
use im_service_modify.Storage.File.{StorageFile, save_message}

abbrev pub batch_size : ℕ
batch_size = 1000

abbrev pub message_flag_group : ℕ
message_flag_group = 4

pub record UserId : Type 0 where
  pub appid : ℕ
  pub uid : ℕ

pub record UserIndex : Type 0 where
  pub last_id : ℕ
  pub last_peer_id : ℕ
  pub last_batch_id : ℕ
  pub last_seq_id : ℕ

pub record PeerStorage : Type 0 where
  pub file : StorageFile
  pub message_index : UserId → Option UserIndex

abbrev pub same_user : UserId → UserId → Bool
same_user a b = a.appid == b.appid && a.uid == b.uid

abbrev pub no_index : UserIndex
no_index = record { last_id = 0; last_peer_id = 0; last_batch_id = 0; last_seq_id = 0 }

abbrev index_or_none : Option UserIndex → UserIndex
index_or_none none = no_index
index_or_none (some ui) = ui

-- `getPeerIndex`; `getLastMessageID` is its first two fields.
unfoldable pub get_peer_index : UserId → PeerStorage → UserIndex
get_peer_index id s = index_or_none (s.message_index id)

-- `setPeerIndex`
unfoldable pub set_peer_index : UserId → UserIndex → PeerStorage → PeerStorage
set_peer_index id ui s = record {
  file = record s.file {
    last_id = if ltb s.file.last_id ui.last_id then ui.last_id else s.file.last_id;
  };
  message_index = λ i. if same_user i id then some ui else s.message_index i;
}

-- `msg.Flag & MESSAGE_FLAG_GROUP != 0`
abbrev pub has_group_flag : ℕ → Bool
has_group_flag flag = flag / message_flag_group % 2 == 1

unfoldable pub is_group_message : Message → Bool
is_group_message m = cmd_of m == msg_group_im || has_group_flag (flag_of m)

-- `IOfflineMessage.ToBody`, for the bodies that have it.
unfoldable pub to_body : Body → Option OfflineMessage
to_body (Body.offline_message1 off) = some off
to_body (Body.offline_message2 off) = some off
to_body (Body.offline_message3 off) = some off
to_body (Body.offline_message4 off) = some off
to_body _ = none

-- The link that `SavePeerMessage` writes for a message behind the newest links.
unfoldable pub new_link : UserId → ℕ → ℕ → UserIndex → OfflineMessage
new_link id device_id msgid ui = record {
  appid = id.appid;
  receiver = id.uid;
  msgid = msgid;
  device_id = device_id;
  seq_id = (ui.last_seq_id + 1) % 2 ^ 64;
  prev_msgid = ui.last_id;
  prev_peer_msgid = ui.last_peer_id;
  prev_batch_msgid = ui.last_batch_id;
}

abbrev pub link_message : Bool → OfflineMessage → Message
link_message is_group off =
    message msg_offline_v4 0 0 (if is_group then message_flag_group else 0)
      (Body.offline_message4 off)

-- The index once a link has its id.
unfoldable pub next_index : Bool → ℕ → UserIndex → UserIndex
next_index is_group link_id ui =
    let seq = (ui.last_seq_id + 1) % 2 ^ 64 in
    record {
      last_id = link_id;
      last_peer_id = if is_group then ui.last_peer_id else link_id;
      last_batch_id = if seq % batch_size == 0 then link_id else ui.last_batch_id;
      last_seq_id = seq;
    }

-- `SavePeerMessage`; `none` is the end of the program.
unfoldable pub save_peer_message : UserId → ℕ → Message → PeerStorage → Option (ℕ × PeerStorage)
save_peer_message id device_id m s = elim (save_message m s.file) [
  | none ↦ none
  | some (msgid, file) ↦
      let ui = get_peer_index id s in
      elim (save_message (link_message (is_group_message m) (new_link id device_id msgid ui))
        file) [
          | none ↦ none
          | some (link_id, file') ↦ some (
            msgid,
            set_peer_index id (next_index (is_group_message m) link_id ui)
                (record s { file = file' }),
          )
        ]
]

-- The index after a link in one of the last two layouts.
abbrev index_of_link : ℕ → ℕ → UserIndex → UserIndex
index_of_link flag msgid ui = next_index (has_group_flag flag) msgid ui

-- `execMessage` on the body of a message: what a slave does with a link that the master wrote,
-- and what rebuilding and repairing the index do with each link on disk.
unfoldable pub exec_link : ℕ → ℕ → ℕ → Option OfflineMessage → PeerStorage → PeerStorage
exec_link cmd flag msgid none s = s
exec_link cmd flag msgid (some off) s =
    let id : UserId = record { appid = off.appid; uid = off.receiver } in
    let ui = get_peer_index id s in
    if cmd == msg_offline
    then set_peer_index id
        (record { last_id = msgid; last_peer_id = msgid; last_batch_id = 0; last_seq_id = 0 }) s
    else if cmd == msg_offline_v2
    then set_peer_index id
        (record {
          last_id = msgid;
          last_peer_id = if has_group_flag flag then ui.last_peer_id else msgid;
          last_batch_id = 0;
          last_seq_id = 0;
        })
        s
    else if cmd == msg_offline_v3 || cmd == msg_offline_v4
    then set_peer_index id (index_of_link flag msgid ui) s
    else s

-- `execMessage`. On a message that is not of a link's command nothing happens; the bodies of those
-- commands are links, as the table of creators has it.
unfoldable pub exec_message : Message → ℕ → PeerStorage → PeerStorage
unfolding exec_link
exec_message m msgid s = exec_link (cmd_of m) (flag_of m) msgid (to_body (body_of m)) s
