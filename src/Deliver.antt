-- ===== src/Deliver.antt =====
-- ServerIM/model/group_message_deliver.go: group messages are appended to a file, and sent from
-- there in its order, one call for each member. The file `cursor` keeps the id of the last message
-- that was sent; an id is the position of the record in the file, which is not negative. Disk
-- errors, which end the program, and the channel `wt`, which only wakes the sender, are left out.
use im_service_modify.Prelude.{
  ℕ, zero, suc, ◌+◌, ◌-◌, ◌*◌, ◌^◌, ◌≤◌, ◌<◌, ◌≡◌, refl, sym, ap, ◌∙◌, ◌⊎◌, inl, inr, Bool, true,
  false, not, ◌&&◌, ◌||◌, Option, none, some, List, [], ◌∷◌, ◌++◌, append_assoc, append-nil, arith,
  length, if◌then◌else◌, ◌==◌, ltb, Bool-cases, Option-cases, ==→eq, subst, ◌≢◌, leb, ◌%◌, drop,
  take,
}
use im_service_modify.Message.Text.{ImMessage}
use im_service_modify.Wire.{Bytes, write, read, Outcome, ok, refused, panics, stuck, ◌>>=◌}
use im_service_modify.Message.Body.{Message, message, Body, cmd_of, body_of}
use im_service_modify.Message.Frame.{write_message, receive_message}
use im_service_modify.Message.Pending.{PendingGroupMessage}
use im_service_modify.Message.Creators.{msg_pending_group_message, msg_group_im, msg_sync_notify}
use im_service_modify.Storage.File.{header_size, magic, read_magic, opened}
use im_service_modify.Route.{Route, ClientSet, find_client_set, count}
pub mod Laws
pub mod PendingFile
pub mod ResumeLaws
pub mod SaveLaws

pub record GroupMessageDeliver : Type 0 where
  pub file : Bytes
  pub cursor_file : Bytes
  pub latest_msgid : ℕ
  pub latest_sended_msgid : ℕ

-- A number of four bytes that is read and not used.
unfoldable pub skip_int : Bytes → Outcome Bytes
skip_int file = if ltb (length file) 4 then refused else ok (drop 4 file)

-- `ReadMessage` at the front of a file's rest.
unfoldable pub read_pending : Bytes → Outcome (Message × Bytes)
read_pending file = do
  at_length ← read_magic file
  at_message ← skip_int at_length
  (m, behind) ← receive_message at_message
  at_magic ← skip_int behind
  rest ← read_magic at_magic
  ok (m, rest)

-- The bytes that `saveMessage` appends.
unfoldable pub pending_record : Message → Bytes
pending_record m =
    let msg_len = length (write_message m) in
    write 4 magic ++ (write 4 msg_len ++ (write_message m ++ (write 4 msg_len ++ write 4 magic)))

-- The id, and the file with the message.
unfoldable pub save_pending : Message → Bytes → ℕ × Bytes
save_pending m file = (length file, file ++ pending_record m)

-- `SaveMessage`
unfoldable pub save_pending_message : Message → GroupMessageDeliver → ℕ × GroupMessageDeliver
save_pending_message m d =
    let (msgid, file) = save_pending m d.file in
    (msgid, record d { file = file; latest_msgid = msgid })

-- The position before a record, of which the 32-bit length at its end is `n`: `offset - n - 8` with
-- the sign of `n`.
abbrev pub record_start : ℕ → ℕ → ℕ
record_start offset n = if ltb n (2 ^ 31) then offset - n - 8 else offset + (2 ^ 32 - n) - 8

-- `readLatestMessageID`: `refused` is `log.Fatal`.
unfoldable pub read_latest_message_id : Bytes → Outcome ℕ
read_latest_message_id file =
    let offset = length file - 8 in
    let buff = drop offset file in
    if leb offset header_size
    then ok 0
    else if (read 4 0 (drop 4 buff)).0 == magic
    then ok (record_start offset (read 4 0 buff).0)
    else refused

-- `openCursorFile`: the number in the file, and the content. The write after the truncation of a
-- short file is at the old end, so zeros are in front of it.
unfoldable pub open_cursor_file : Bytes → ℕ × Bytes
open_cursor_file file =
    if ltb (length file) 8 then (0, write (length file + 8) 0) else ((read 8 0 file).0, file)

-- `saveCursor` once the number has changed.
unfoldable pub save_cursor : ℕ → GroupMessageDeliver → GroupMessageDeliver
save_cursor msgid d = record d {
  cursor_file = write 8 msgid ++ drop 8 d.cursor_file;
  latest_sended_msgid = msgid;
}

-- `truncateFile`
unfoldable pub truncate_file : GroupMessageDeliver → GroupMessageDeliver
truncate_file d = save_cursor 0 (record d { file = take header_size d.file; latest_msgid = 0 })

-- `NewGroupMessageDeliver` on the two files; `none` is a file that is missing.
unfoldable pub new_group_message_deliver : Option Bytes → Bytes → Outcome GroupMessageDeliver
new_group_message_deliver pending cursor = do
  latest_msgid ← read_latest_message_id (opened pending)
  ok (record {
    file = opened pending;
    cursor_file = (open_cursor_file cursor).1;
    latest_msgid = latest_msgid;
    latest_sended_msgid = (open_cursor_file cursor).0;
  })

-- `DEFAULT_VERSION`
abbrev pub default_version : ℕ
default_version = 1

-- `SaveMessage` of the storage servers, which may fail, `PushMessage`, the routes of the apps with
-- their clients, the device of a client and `EnqueueMessage` belong to a state `W` that this file
-- does not know.
pub record Network {ℓ} (W : Type ℓ) : Type ℓ where
  pub save_member_message : ℕ → ℕ → ℕ → Message → W → Option ℕ × W
  pub push_message : ℕ → ℕ → Message → W → W
  pub find_route : ℕ → W → Option Route
  pub device_of : ℕ → W → ℕ
  pub enqueue_message : ℕ → Message → W → W

module _ {ℓ} {W : Type ℓ} (net : Network W) where
  -- The loop of `sendMessage`, in the order of the set; the sender's own device is left out.
  unfoldable pub send_to_clients : ℕ → ℕ → ℕ → Message → ClientSet → W → W
  send_to_clients uid sender device_id m [] w = w
  send_to_clients uid sender device_id m ((address, _) ∷ clients) w =
      send_to_clients uid sender device_id m clients (
        if net.device_of address w == device_id && sender == uid
        then w
        else net.enqueue_message address m w)

  abbrev pub send_to_set : ℕ → ℕ → ℕ → Message → Option ClientSet → W → Bool × W
  send_to_set uid sender device_id m none w = (false, w)
  send_to_set uid sender device_id m (some clients) w =
      if count clients == 0
      then (false, w)
      else (true, send_to_clients uid sender device_id m clients w)

  abbrev send_by_route : ℕ → ℕ → ℕ → Message → Option Route → W → Outcome (Bool × W)
  send_by_route uid sender device_id m none w = panics
  send_by_route uid sender device_id m (some route) w =
      ok (send_to_set uid sender device_id m (find_client_set uid route) w)

  -- `sendMessage`. The assertion that a missing route is a `*Route` panics.
  unfoldable pub send_message : ℕ → ℕ → ℕ → ℕ → Message → W → Outcome (Bool × W)
  send_message appid uid sender device_id m w =
      let w' = net.push_message appid uid m w in
      send_by_route uid sender device_id m (net.find_route appid w') w'

  abbrev push_to : Bool → ℕ → ℕ → Message → W → W
  push_to true appid member m w = w
  push_to false appid member m w = net.push_message appid member m w

  -- The loop of `sendGroupMessage`.
  unfoldable pub send_members : PendingGroupMessage → Message → List ℕ → W → Outcome (Bool × W)
  send_members gm m [] w = ok (true, w)
  send_members gm m (member ∷ members) w =
      let (saved, w') = net.save_member_message gm.appid member gm.device_id m w in
      elim saved [
        | none ↦ ok (false, w')
        | some msgid ↦
            let notify =
              message msg_sync_notify 0 0 0 (Body.sync_key (record { sync_key = msgid })) in
            send_message gm.appid member gm.sender gm.device_id notify
              (push_to (gm.sender == member) gm.appid member m w')
            >>= λ (sent, w''). send_members gm m members w''
      ]

  abbrev pub group_im : PendingGroupMessage → ImMessage
  group_im gm = record {
    sender = gm.sender;
    receiver = gm.gid;
    timestamp = gm.timestamp;
    msgid = 0;
    content = gm.content;
  }

  unfoldable pub send_group_message : PendingGroupMessage → W → Outcome (Bool × W)
  send_group_message gm w =
      send_members gm (message msg_group_im 0 default_version 0 (Body.im_message (group_im gm)))
        gm.members w

  -- One message of the loop of `sendPendingMessage`: whether the loop goes on.
  abbrev sent_or_stop : ℕ → GroupMessageDeliver → Bool × W → Bool × GroupMessageDeliver × W
  sent_or_stop msgid d (true, w) = (true, save_cursor msgid d, w)
  sent_or_stop msgid d (false, w) = (false, d, w)

  abbrev send_body : ℕ → Body → GroupMessageDeliver → W → Outcome (Bool × GroupMessageDeliver × W)
  send_body msgid (Body.pending_group_message gm) d w =
      send_group_message gm w >>= λ r. ok (sent_or_stop msgid d r)
  send_body msgid _ d w = panics

  unfoldable pub send_one :
      ℕ → Message → GroupMessageDeliver → W → Outcome (Bool × GroupMessageDeliver × W)
  send_one msgid m d w =
      if leb msgid d.latest_sended_msgid
      then ok (true, d, w)
      else if cmd_of m == msg_pending_group_message
      then send_body msgid (body_of m) d w
      else ok (true, d, w)

  -- The loop, `file` from the position `msgid` on.
  unfoldable pub send_loop :
      ℕ → ℕ → Bytes → GroupMessageDeliver → W → Outcome (GroupMessageDeliver × W)
  send_loop zero msgid file d w = stuck
  send_loop (suc fuel) msgid file d w = elim (read_pending file) [
    | ok (m, rest) ↦ elim (send_one msgid m d w) [
      | ok (true, d', w') ↦ send_loop fuel (msgid + (length file - length rest)) rest d' w'
      | ok (false, d', w') ↦ ok (d', w')
      | refused ↦ refused
      | panics ↦ panics
      | stuck ↦ stuck
    ]
    | refused ↦ ok (d, w)
    | panics ↦ panics
    | stuck ↦ stuck
  ]

  unfoldable pub send_pending_message :
      ℕ → GroupMessageDeliver → W → Outcome (GroupMessageDeliver × W)
  send_pending_message fuel d w =
      let offset = if d.latest_sended_msgid == 0 then header_size else d.latest_sended_msgid in
      send_loop fuel offset (drop offset d.file) d w

  -- The second half of `flushPendingMessage`, on a file of more than 128 MiB. No message is saved
  -- meanwhile, as it has the lock.
  abbrev send_again : ℕ → GroupMessageDeliver → W → Outcome (GroupMessageDeliver × W)
  send_again fuel d w =
      if ltb d.latest_sended_msgid d.latest_msgid then send_pending_message fuel d w else ok (d, w)

  unfoldable pub flush_large : ℕ → GroupMessageDeliver → W → Outcome (GroupMessageDeliver × W)
  flush_large fuel d w = do
    (d', w') ← send_again fuel d w
    ok (if d.latest_msgid == d'.latest_sended_msgid then truncate_file d' else d', w')

  abbrev pub flush_if_large : ℕ → GroupMessageDeliver → W → Outcome (GroupMessageDeliver × W)
  flush_if_large fuel d w =
      if ltb (128 * 1024 * 1024) d.latest_sended_msgid then flush_large fuel d w else ok (d, w)

  unfoldable pub flush_pending_message :
      ℕ → GroupMessageDeliver → W → Outcome (GroupMessageDeliver × W)
  flush_pending_message fuel d w =
      if ltb d.latest_sended_msgid d.latest_msgid
      then (send_pending_message fuel d w >>= λ (d', w'). flush_if_large fuel d' w')
      else ok (d, w)
