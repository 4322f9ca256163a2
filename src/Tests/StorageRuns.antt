-- ===== src/Tests/StorageRuns.antt =====
-- Concrete runs of the storage, and its theorems at concrete inputs.
use im_service_modify.Prelude.{
  map, ℕ, suc, ◌+◌, ◌*◌, ◌^◌, ◌<◌, ◌≡◌, refl, false, List, [], ◌∷◌, take, drop, arith, Option, none,
  some,
}
use im_service_modify.Wire.{write, read, Outcome, ok, refused}
use im_service_modify.Storage.File.{
  write_header, update, opened, open_write_file, record_bytes, append_record, appended, read_magic,
  read_message, get_block_no, get_block_offset,
}
use im_service_modify.Message.Text.{to_data_im, to_data_im_v1, from_data_im, from_data_im_v1}
use im_service_modify.Message.Offline.{from_data_offline_message4}
use im_service_modify.Message.Frame.{
  write_message, read_header, receive_limit, receive_message, from_data, from_data_kind,
}
use im_service_modify.Wire.{value}
use im_service_modify.Storage.Queue.{FitsLink}
use im_service_modify.Storage.PeerLaws.{Pushed, save_peer_message-Pushed}
use im_service_modify.Storage.PeerLoad.{
  EMessage, load_latest_messages, latest_loop, load_link, is_latest_cmd, load_history_messages,
  is_history_cmd,
}
use im_service_modify.Storage.PeerLoadLaws.{
  load_latest_messages-queue, load_history_messages-queue, deliver, newer, newest, limited,
}
use im_service_modify.Storage.Queue.{IsQueue}
use im_service_modify.Message.Body.{Message, Body, message}
use im_service_modify.Message.Creators.{creator, kind_of, msg_im}
use im_service_modify.Message.Offline.{OfflineMessage, to_data_offline_message4}
use im_service_modify.Message.Frame.{to_data}
use im_service_modify.Message.Fits.{FitsMessage}
use im_service_modify.Storage.File.{StorageFile, save_message, load_message, next_message_id}
use im_service_modify.Storage.FileLaws.{IsValid}
use im_service_modify.Storage.SaveLaws.{Saved, save_message-Saved}
use im_service_modify.Storage.Peer.{
  UserId, PeerStorage, get_peer_index, set_peer_index, is_group_message, to_body, new_link,
  next_index, save_peer_message,
}

abbrev empty_disk : StorageFile
empty_disk = record {
  files = λ n. none;
  block_no = 0;
  dirty = false;
  last_id = 0;
  last_saved_id = 0;
  sent = [];
}

-- The state of a server that starts on an empty disk.
abbrev pub fresh : StorageFile
fresh = open_write_file 0 empty_disk

abbrev pub alice : UserId
alice = record { appid = 7; uid = 1 }

abbrev pub fresh_peers : PeerStorage
fresh_peers = record { file = fresh; message_index = λ id. none }

abbrev pub hello : Message
hello = message msg_im 1 1 0 (
    Body.im_message
      (record { sender = 1; receiver = 2; timestamp = 5; msgid = 0; content = 104 ∷ 105 ∷ [] }))

pub hello-Fits : FitsMessage (32 * 1024) hello
unfolding FitsMessage creator kind_of to_data to_data_im to_data_im_v1 write
hello-Fits = (
  omega arith,
  omega arith,
  omega arith,
  omega arith,
  refl,
  omega arith,
  (
    record {
      sender = omega arith;
      receiver = omega arith;
      timestamp = omega arith;
      msgid = omega arith;
    },
    λ e. absurd (omega arith),
  ),
)

pub fresh-IsValid : IsValid fresh
unfolding open_write_file update opened write_header write
fresh-IsValid = record { header = omega arith; bounded = omega arith; newest = λ n h. ground arith }

save_message-Saved_example :
    (id : ℕ) × (s' : StorageFile) × (save_message hello fresh ≡ some (id, s'))
    × Saved hello fresh id s'
save_message-Saved_example = save_message-Saved hello fresh fresh-IsValid hello-Fits

pub alice-Fits :
    FitsLink alice 3 (get_peer_index alice fresh_peers) (next_message_id fresh_peers.file)
unfolding get_peer_index next_message_id open_write_file update opened write_header write
alice-Fits = record {
  appid = omega arith;
  uid = omega arith;
  device = omega arith;
  last = omega arith;
  peer = omega arith;
  batch = omega arith;
}

pub block_no-fresh : fresh_peers.file.block_no + 2 < 2 ^ 36
unfolding open_write_file
block_no-fresh = omega arith

save_peer_message-Pushed_example :
    (msgid : ℕ) × (s' : PeerStorage) × (save_peer_message alice 3 hello fresh_peers
      ≡ some (msgid, s'))
    × Pushed alice 3 hello fresh_peers msgid s'
save_peer_message-Pushed_example =
    save_peer_message-Pushed alice 3 hello fresh_peers fresh-IsValid block_no-fresh hello-Fits
      alice-Fits

-- Two messages in a row: the second link names the first.
abbrev after_two : Option (ℕ × PeerStorage)
after_two = elim (save_peer_message alice 3 hello fresh_peers) [
  | none ↦ none
  | some (id, s) ↦ save_peer_message alice 3 hello s
]

abbrev read_back : Option (ℕ × PeerStorage) → Outcome (List EMessage)
read_back none = refused
read_back (some (id, s)) = load_latest_messages 1000 alice 10 s

abbrev ids : Outcome (List EMessage) → List ℕ
ids (ok es) = map (λ (e : EMessage). e.msgid) es
ids _ = []

-- Opening this opens all that a run computes with.
run : Unit {0}
unfolding save_peer_message save_message append_record appended open_write_file update opened
    write_header write record_bytes write_message to_data to_data_im to_data_im_v1
    to_data_offline_message4 new_link next_index set_peer_index get_peer_index is_group_message
    next_message_id load_latest_messages latest_loop load_link load_message read_message read_magic
    receive_message receive_limit read_header from_data from_data_kind creator from_data_im
    from_data_im_v1 from_data_offline_message4 read value take drop get_block_no get_block_offset
    to_body is_latest_cmd
run = tt

two_in_a_row : ids (read_back after_two) ≡ 162 ∷ 32 ∷ []
unfolding run
two_in_a_row = refl

-- The storage after one message.
abbrev after_one : PeerStorage
after_one = save_peer_message-Pushed_example.1

abbrev first_link : OfflineMessage
first_link = new_link alice 3 save_peer_message-Pushed_example.0 (get_peer_index alice fresh_peers)

queue_of_one :
    IsQueue
      (λ off. off.prev_msgid)
      after_one.file
      (get_peer_index alice after_one).last_id
      ((first_link, hello) ∷ [])
queue_of_one = save_peer_message-Pushed_example.3.own [] (unfold get_peer_index in refl)

load_latest_messages-queue_example :
    load_latest_messages (suc (get_peer_index alice after_one).last_id) alice 10 after_one
    ≡ ok (take 10 (deliver is_latest_cmd ((first_link, hello) ∷ [])))
load_latest_messages-queue_example =
    load_latest_messages-queue ((first_link, hello) ∷ [])
      (suc (get_peer_index alice after_one).last_id) alice 10 after_one queue_of_one (omega arith)
      (omega arith) (omega arith)

load_history_messages-queue_example :
    load_history_messages (suc (get_peer_index alice after_one).last_id) alice 31 0 10 after_one
    ≡ ok (
      limited 10 (deliver is_history_cmd (newer 31 ((first_link, hello) ∷ []))),
      newest ((first_link, hello) ∷ []),
    )
load_history_messages-queue_example =
    load_history_messages-queue ((first_link, hello) ∷ [])
      (suc (get_peer_index alice after_one).last_id) alice 31 10 after_one queue_of_one
      (omega arith)
