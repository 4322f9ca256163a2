-- ===== src/Storage/Group.antt =====
-- ServerIMS/model/storage_group.go: the messages of a super group, as one queue for the group. The
-- index holds the id of a group's newest link, 0 for a group that has none. Storage/GroupQueue.antt
-- and Storage/GroupLaws.antt are about it.
use im_service_modify.Prelude.{
  ℕ, zero, suc, ◌+◌, ◌%◌, ◌^◌, Bool, false, ◌&&◌, ◌||◌, List, [], ◌∷◌, ◌++◌, ltb, leb, ◌==◌, length,
  if◌then◌else◌, Option, none, some,
}
use im_service_modify.Wire.{Outcome, ok, panics, stuck, ◌>>=◌}
use im_service_modify.Message.Body.{Message, Body, message, cmd_of, body_of}
use im_service_modify.Message.Creators.{msg_group_im, msg_group_im_list}
use im_service_modify.Message.Offline.{GroupOfflineMessage}
use im_service_modify.Storage.File.{StorageFile, save_message}
use im_service_modify.Storage.PeerLoad.{EMessage, le_int64, load}

pub record GroupId : Type 0 where
  pub appid : ℕ
  pub gid : ℕ

pub record GroupStorage : Type 0 where
  pub file : StorageFile
  pub message_index : GroupId → ℕ

abbrev pub same_group : GroupId → GroupId → Bool
same_group a b = a.appid == b.appid && a.gid == b.gid

-- `getLastGroupMessageID`
unfoldable pub get_last_group_message_id : GroupId → GroupStorage → ℕ
get_last_group_message_id id s = s.message_index id

-- `setLastGroupMessageID`
unfoldable pub set_last_group_message_id : GroupId → ℕ → GroupStorage → GroupStorage
set_last_group_message_id id msgid s = record {
  file = record s.file { last_id = if ltb s.file.last_id msgid then msgid else s.file.last_id };
  message_index = λ i. if same_group i id then msgid else s.message_index i;
}

-- The link that `SaveGroupMessage` writes; it sets no receiver.
unfoldable pub new_group_link : GroupId → ℕ → ℕ → ℕ → GroupOfflineMessage
new_group_link id device_id msgid last_id = record {
  appid = id.appid;
  receiver = 0;
  msgid = msgid;
  gid = id.gid;
  device_id = device_id;
  prev_msgid = last_id;
}

abbrev pub group_link_message : GroupOfflineMessage → Message
group_link_message off = message msg_group_im_list 0 0 0 (Body.group_offline_message off)

-- `SaveGroupMessage`; `none` is the end of the program.
unfoldable pub save_group_message : GroupId → ℕ → Message → GroupStorage → Option (ℕ × GroupStorage)
save_group_message id device_id m s = elim (save_message m s.file) [
  | none ↦ none
  | some (msgid, file) ↦
      let last_id = get_last_group_message_id id s in
      elim (save_message (group_link_message (new_group_link id device_id msgid last_id)) file) [
        | none ↦ none
        | some (link_id, file') ↦
            some (msgid, set_last_group_message_id id link_id (record s { file = file' }))
      ]
]

-- `execMessage`: what a slave does with a link, and what repairing the index does with it.
unfoldable pub exec_group_link : ℕ → Body → GroupStorage → GroupStorage
exec_group_link msgid (Body.group_offline_message off) s =
    set_last_group_message_id (record { appid = off.appid; gid = off.gid }) msgid s
exec_group_link msgid body s = s

unfoldable pub exec_group_message : Message → ℕ → GroupStorage → GroupStorage
unfolding exec_group_link
exec_group_message m msgid s =
    if cmd_of m == msg_group_im_list then exec_group_link msgid (body_of m) s else s

abbrev group_body : Body → Outcome (Option GroupOfflineMessage)
group_body (Body.group_offline_message off) = ok (some off)
group_body _ = panics

abbrev group_link : Option Message → Outcome (Option GroupOfflineMessage)
group_link none = ok none
group_link (some m) = if cmd_of m == msg_group_im_list then group_body (body_of m) else ok none

-- The link under an id: nil, or another command, ends the walk.
unfoldable pub load_group_link : ℕ → StorageFile → Outcome (Option GroupOfflineMessage)
load_group_link id file = do m ← load id file; group_link m

abbrev im_timestamp : Body → Outcome ℕ
im_timestamp (Body.im_message im) = ok im.timestamp
im_timestamp _ = panics

-- `<` of int32 values.
abbrev pub lt_int32 : ℕ → ℕ → Bool
lt_int32 a b = ltb ((a + 2 ^ 31) % 2 ^ 32) ((b + 2 ^ 31) % 2 ^ 32)

-- Whether a message of a first synchronisation is from before the user joined. A nil message, and a
-- body of another type, make the program panic.
unfoldable pub is_before_joining : ℕ → ℕ → Option Message → Outcome Bool
is_before_joining msgid ts m =
    if msgid == 0
    then elim m [
      | none ↦ panics
      | some im ↦
          if cmd_of im == msg_group_im
          then (do timestamp ← im_timestamp (body_of im); ok (lt_int32 timestamp ts))
          else ok false
    ]
    else ok false

-- The loop of `LoadGroupHistoryMessages`.
unfoldable pub group_loop :
    ℕ → StorageFile → ℕ → ℕ → ℕ → ℕ → ℕ → List EMessage → Outcome (List EMessage × ℕ)
group_loop zero file msgid ts limit last_id last_msgid c = stuck
group_loop (suc fuel) file msgid ts limit last_id last_msgid c =
    if le_int64 last_id 0 then ok (c, last_msgid) else (do
      link ← load_group_link last_id file
      elim link [
        | none ↦ ok (c, last_msgid)
        | some off ↦
            let last = if last_msgid == 0 then off.msgid else last_msgid in
            let body : Outcome (List EMessage × ℕ) = (do
              m ← load off.msgid file
              stops ← is_before_joining msgid ts m
              let emsg : EMessage = record {
                msgid = off.msgid;
                device_id = off.device_id;
                msg = m;
              } in
                  let more = c ++ emsg ∷ [] in
                  let rest = group_loop fuel file msgid ts limit off.prev_msgid last more in
                  if stops
                  then ok (c, last)
                  else if leb limit (length more)
                  then ok (more, last)
                  else rest) in
            if off.msgid == 0 || le_int64 off.msgid msgid then ok (c, last) else body
      ])

-- `LoadGroupHistoryMessages`: the messages after `msgid`, newest first, and the newest one's id.
unfoldable pub load_group_history_messages :
    ℕ → GroupId → ℕ → ℕ → ℕ → GroupStorage → Outcome (List EMessage × ℕ)
load_group_history_messages fuel id msgid ts limit s =
    group_loop fuel s.file msgid ts limit (get_last_group_message_id id s) 0 []
