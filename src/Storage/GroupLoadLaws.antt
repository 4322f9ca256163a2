-- ===== src/Storage/GroupLoadLaws.antt =====
-- `LoadGroupHistoryMessages` delivers what the group's queue, as a list, holds.
use im_service_modify.Prelude.{
  ℕ, zero, suc, ◌-◌, ◌<◌, ◌≡◌, true, ◌&&◌, List, [], ◌∷◌, ◌++◌, append-nil, leb, ◌==◌, length, take,
  if◌then◌else◌, arith, some, Bool-cases, inl, inr,
}
use im_service_modify.Wire.{ok}
use im_service_modify.Message.Body.{Message}
use im_service_modify.Message.Offline.{GroupOfflineMessage}
use im_service_modify.Storage.File.{StorageFile, load_message}
use im_service_modify.Storage.PeerLoad.{EMessage, le_int64}
use im_service_modify.Storage.PeerLoadLaws.{take_nil, collect_one, collect_last}
use im_service_modify.Storage.Group.{
  GroupId, GroupStorage, get_last_group_message_id, group_link_message, load_group_link,
  is_before_joining, group_loop, load_group_history_messages,
}
use im_service_modify.Storage.GroupQueue.{
  GroupEntry, IsGroupQueue, has_im_body, is_early, group_newer, newest_in_group,
  length-group_queue-le,
}

load_group_link-link :
    (id : ℕ) (file : StorageFile) (off : GroupOfflineMessage)
    → load_message id file ≡ ok (group_link_message off)
    → load_group_link id file ≡ ok (some off)
unfolding load_group_link
load_group_link-link id file off e = rw (e, load_group_link)

is_before_joining-early :
    (msgid ts : ℕ) (m : Message)
    → has_im_body m ≡ true
    → is_before_joining msgid ts (some m) ≡ ok (msgid == 0 && is_early ts m)
unfolding is_before_joining
is_before_joining-early msgid ts m w = ground (arith, w)

group_loop-queue :
    (q : List GroupEntry) (fuel id msgid ts limit last_msgid : ℕ) (file : StorageFile)
    (acc : List EMessage)
    → IsGroupQueue file id q
    → length q < fuel
    → length acc < limit
    → group_loop fuel file msgid ts limit id last_msgid acc
      ≡ ok (
        acc ++ take (limit - length acc) (group_newer msgid ts q),
        if last_msgid == 0 then newest_in_group q else last_msgid,
      )
unfolding group_loop group_newer newest_in_group
group_loop-queue q zero id msgid ts limit last_msgid file acc h f l = absurd (omega arith)
group_loop-queue [] (suc fuel) id msgid ts limit last_msgid file acc h f l =
    ground (arith, take_nil (limit - length acc), append-nil acc)
group_loop-queue ((off, m) ∷ q) (suc fuel) id msgid ts limit last_msgid file acc
      (p, small, e, e', z, w, lt, h) f l =
    let x : EMessage = record { msgid = off.msgid; device_id = off.device_id; msg = some m } in
    let more : List EMessage = acc ++ x ∷ [] in
    let link = load_group_link-link id file off e in
    let rest = group_newer msgid ts q in
    let last : ℕ = if last_msgid == 0 then off.msgid else last_msgid in
    let early = is_before_joining-early msgid ts m w in
    elim (Bool-cases (le_int64 off.msgid msgid)) [
      | inl old ↦ ground (arith, link, old, take_nil (limit - length acc), append-nil acc)
      | inr young ↦ elim (Bool-cases (msgid == 0 && is_early ts m)) [
        | inl before ↦
            ground
              (arith, link, e', young, early, before, take_nil (limit - length acc), append-nil acc)
        | inr after ↦ elim (Bool-cases (leb limit (length more))) [
          | inl full ↦
              ground (arith, link, e', young, early, after, full, collect_last limit acc rest x)
          | inr room ↦ ground (
            arith,
            link,
            e',
            young,
            early,
            after,
            room,
            collect_one limit acc rest x,
            group_loop-queue q fuel off.prev_msgid msgid ts limit last file more h (omega arith)
                (ground arith),
          )
        ]
      ]
    ]

-- `LoadGroupHistoryMessages` with a positive limit ends with fuel above the newest link's id. It
-- returns the newest messages of the group's queue, newest first, up to the limit, and stops before
-- the first that is not newer than `msgid` or, when `msgid` is 0, is a group message from before
-- the time `ts` of joining. It also returns the id of the group's newest message, 0 if there is
-- none.
pub load_group_history_messages-queue :
    (q : List GroupEntry) (fuel : ℕ) (id : GroupId) (msgid ts limit : ℕ) (s : GroupStorage)
    → IsGroupQueue s.file (get_last_group_message_id id s) q
    → get_last_group_message_id id s < fuel
    → 0 < limit
    → load_group_history_messages fuel id msgid ts limit s
      ≡ ok (take limit (group_newer msgid ts q), newest_in_group q)
unfolding load_group_history_messages
load_group_history_messages-queue q fuel id msgid ts limit s h f l =
    let e : limit - 0 ≡ limit = omega arith in
    rw e at (
      group_loop-queue q fuel (get_last_group_message_id id s) msgid ts limit 0 s.file [] h
        (omega (arith, length-group_queue-le _ _ q h)) l)
