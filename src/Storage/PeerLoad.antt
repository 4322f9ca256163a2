-- ===== src/Storage/PeerLoad.antt =====
-- The walks of ServerIMS/model/storage_peer.go along a user's queue, newest message first. A walk
-- that the fuel does not cover is `stuck`.
use im_service_modify.Prelude.{
  ℕ, zero, suc, ◌+◌, ◌%◌, ◌^◌, Bool, not, ◌&&◌, ◌||◌, List, [], ◌∷◌, ◌++◌, ltb, leb, ◌==◌, length,
  if◌then◌else◌, Option, none, some,
}
use im_service_modify.Wire.{Outcome, ok, refused, panics, stuck, ◌>>=◌}
use im_service_modify.Message.Body.{Message, cmd_of, body_of}
use im_service_modify.Message.Creators.{
  msg_im, msg_group_im, msg_group_notification, msg_customer, msg_customer_support, msg_system,
}
use im_service_modify.Message.Offline.{OfflineMessage}
use im_service_modify.Storage.File.{StorageFile, load_message}
use im_service_modify.Storage.Peer.{UserId, PeerStorage, get_peer_index, to_body}

-- `EMessage`; its message may be nil.
pub record EMessage : Type 0 where
  pub msgid : ℕ
  pub device_id : ℕ
  pub msg : Option Message

-- The commands that `LoadLatestMessages` delivers.
unfoldable pub is_latest_cmd : ℕ → Bool
is_latest_cmd cmd =
    cmd == msg_group_im
    || (cmd == msg_group_notification
        || (cmd == msg_im || (cmd == msg_customer || cmd == msg_customer_support)))

-- The history also has system messages.
unfoldable pub is_history_cmd : ℕ → Bool
is_history_cmd cmd = is_latest_cmd cmd || cmd == msg_system

-- `<=` of int64 values.
abbrev pub le_int64 : ℕ → ℕ → Bool
le_int64 a b = leb ((a + 2 ^ 63) % 2 ^ 64) ((b + 2 ^ 63) % 2 ^ 64)

-- `LoadMessage` as its callers see it: a message or nil.
abbrev pub found : Outcome Message → Outcome (Option Message)
found (ok m) = ok (some m)
found refused = ok none
found panics = panics
found stuck = stuck

abbrev pub load : ℕ → StorageFile → Outcome (Option Message)
load id file = found (load_message id file)

-- The link under an id: nil, or not a link, ends the walk.
unfoldable pub load_link : ℕ → StorageFile → Outcome (Option OfflineMessage)
load_link id file = elim (load id file) [
  | ok (some m) ↦ ok (to_body (body_of m))
  | ok none ↦ ok none
  | refused ↦ refused
  | panics ↦ panics
  | stuck ↦ stuck
]

-- The loop of `LoadLatestMessages`. `messages` is what was collected, in order; `limit` is an int,
-- so it may be 0 or negative, and then the first message that is delivered ends the loop.
unfoldable pub latest_loop : ℕ → StorageFile → ℕ → ℕ → List EMessage → Outcome (List EMessage)
latest_loop zero file limit last_id messages = stuck
latest_loop (suc fuel) file limit last_id messages = if last_id == 0 then ok messages else (do
  link ← load_link last_id file
  elim link [
    | none ↦ ok messages
    | some off ↦ do
      m ← load off.msgid file
      elim m [
        | none ↦ ok messages
        | some msg ↦
            let emsg : EMessage = record {
              msgid = off.msgid;
              device_id = off.device_id;
              msg = some msg;
            } in
            let skipped = latest_loop fuel file limit off.prev_msgid messages in
            let rest = latest_loop fuel file limit off.prev_msgid (messages ++ emsg ∷ []) in
            if not (is_latest_cmd (cmd_of msg))
            then skipped
            else if le_int64 limit (length (messages ++ emsg ∷ []))
            then ok (messages ++ emsg ∷ [])
            else rest
      ]
  ])

-- `LoadLatestMessages`
unfoldable pub load_latest_messages : ℕ → UserId → ℕ → PeerStorage → Outcome (List EMessage)
load_latest_messages fuel id limit s =
    latest_loop fuel s.file limit (get_peer_index id s).last_id []

-- Where `LoadHistoryMessages` goes on: past the limit of group messages, in the peer queue.
abbrev pub previous : ℕ → ℕ → OfflineMessage → ℕ
previous group_limit count off =
    if ltb 0 group_limit && leb group_limit count then off.prev_peer_msgid else off.prev_msgid

-- The loop of `LoadHistoryMessages`; `last_msgid` is the newest message's id.
unfoldable pub history_loop :
    ℕ → StorageFile → ℕ → ℕ → ℕ → ℕ → ℕ → List EMessage → Outcome (List EMessage × ℕ)
history_loop zero file sync_msgid group_limit limit last_id last_msgid messages = stuck
history_loop (suc fuel) file sync_msgid group_limit limit last_id last_msgid messages =
    if last_id == 0 then ok (messages, last_msgid) else (do
      link ← load_link last_id file
      elim link [
        | none ↦ ok (messages, last_msgid)
        | some off ↦
            let last = if last_msgid == 0 then off.msgid else last_msgid in
            let body : Outcome (List EMessage × ℕ) = (do
              m ← load off.msgid file
              elim m [
                | none ↦ ok (messages, last)
                | some msg ↦
                    let emsg : EMessage = record {
                      msgid = off.msgid;
                      device_id = off.device_id;
                      msg = some msg;
                    } in
                    let more = messages ++ emsg ∷ [] in
                    let skipped =
                      history_loop fuel file sync_msgid group_limit limit
                        (previous group_limit (length messages) off) last messages in
                    let rest =
                      history_loop fuel file sync_msgid group_limit limit
                        (previous group_limit (length more) off) last more in
                    if not (is_history_cmd (cmd_of msg))
                    then skipped
                    else if ltb 0 limit && leb limit (length more)
                    then ok (more, last)
                    else rest
              ]) in
            if le_int64 off.msgid sync_msgid then ok (messages, last) else body
      ])

-- `LoadHistoryMessages`: the messages and the id of the newest.
unfoldable pub load_history_messages :
    ℕ → UserId → ℕ → ℕ → ℕ → PeerStorage → Outcome (List EMessage × ℕ)
load_history_messages fuel id sync_msgid group_limit limit s =
    history_loop fuel s.file sync_msgid group_limit limit (get_peer_index id s).last_id 0 []
