-- ===== src/Storage/GroupLaws.antt =====
-- `SaveGroupMessage` and `execMessage` of a group's storage as operations on queues.
use im_service_modify.Prelude.{
  ℕ, ◌+◌, ◌*◌, ◌^◌, ◌<◌, ◌≡◌, refl, true, false, List, ◌∷◌, if◌then◌else◌, arith, some,
}
use im_service_modify.Wire.{ok}
use im_service_modify.Message.Body.{Message}
use im_service_modify.Message.Fits.{FitsMessage}
use im_service_modify.Storage.File.{StorageFile, save_message, load_message, next_message_id}
use im_service_modify.Storage.FileLaws.{IsValid}
use im_service_modify.Storage.SaveLaws.{Saved, save_message-Saved}
use im_service_modify.Storage.PeerLaws.{next_message_id-bound}
use im_service_modify.Storage.Group.{
  GroupId, GroupStorage, same_group, get_last_group_message_id, set_last_group_message_id,
  new_group_link, group_link_message, save_group_message, exec_group_message,
}
use im_service_modify.Storage.GroupQueue.{
  GroupEntry, has_im_body, IsGroupQueue, IsGroupQueue-Saved, IsGroupQueue-last_id, FitsGroupLink,
  new_group_link-Fits, get-set_last_group_message_id,
}

-- What `SaveGroupMessage` does to the queues of the groups.
pub record PushedToGroup (id : GroupId) (device_id : ℕ) (m : Message) (s : GroupStorage) (msgid : ℕ)
    (s' : GroupStorage) : Type 0 where
  pub valid : IsValid s'.file
  pub loads : load_message msgid s'.file ≡ ok m
  -- The group's queue has the message in front.
  pub own :
      (q : List GroupEntry)
      → IsGroupQueue s.file (get_last_group_message_id id s) q
      → IsGroupQueue s'.file
          (get_last_group_message_id id s')
          ((new_group_link id device_id msgid (get_last_group_message_id id s), m) ∷ q)
  -- The other groups have the queues that they had.
  pub others :
      (j : GroupId) (q : List GroupEntry)
      → same_group j id ≡ false
      → IsGroupQueue s.file (get_last_group_message_id j s) q
      → IsGroupQueue s'.file (get_last_group_message_id j s') q
  -- A storage in any state that executes the stored link has the same newest link of the group.
  pub replayed :
      (link_id : ℕ) × (load_message link_id s'.file
        ≡ ok (
            group_link_message
              (new_group_link id device_id msgid (get_last_group_message_id id s))))
      × ((t : GroupStorage)
          → get_last_group_message_id id (
              exec_group_message
                (group_link_message
                  (new_group_link id device_id msgid (get_last_group_message_id id s)))
                link_id
                t)
            ≡ get_last_group_message_id id s')

-- A slave that executes the link which `SaveGroupMessage` wrote, and a restart that repairs the
-- index from it, set the same entry of the index as `SaveGroupMessage` itself.
pub exec_group_message-link :
    (id : GroupId) (device_id msgid newest_id link_id : ℕ) (s : GroupStorage)
    → exec_group_message
        (group_link_message (new_group_link id device_id msgid newest_id))
        link_id
        s
      ≡ set_last_group_message_id id link_id s
unfolding exec_group_message new_group_link
exec_group_message-link id device_id msgid newest_id link_id s = refl

-- The two records that were written make the new queue.
module _ (id : GroupId) (device_id : ℕ) (m : Message) (s : GroupStorage) (msgid link_id : ℕ)
    (file1 file2 : StorageFile) (a : Saved m s.file msgid file1)
    (b : Saved
      (group_link_message (new_group_link id device_id msgid (get_last_group_message_id id s)))
      file1
      link_id
      file2)
    (l : FitsGroupLink id device_id (get_last_group_message_id id s) (next_message_id s.file)) where
  newest_id : ℕ
  newest_id = get_last_group_message_id id s

  s' : GroupStorage
  s' = set_last_group_message_id id link_id (record s { file = file2 })

  index-s' :
      (j : GroupId)
      → get_last_group_message_id j s'
        ≡ (if same_group j id then link_id else get_last_group_message_id j s)
  unfolding s' get_last_group_message_id
  index-s' j = get-set_last_group_message_id id j link_id (record s { file = file2 })

  in_s' :
      (start : ℕ) (q : List GroupEntry) → IsGroupQueue file2 start q → IsGroupQueue s'.file start q
  unfolding s' set_last_group_message_id
  in_s' start q h = IsGroupQueue-last_id file2 _ start q h

  kept :
      (start : ℕ) (q : List GroupEntry) → IsGroupQueue s.file start q → IsGroupQueue s'.file start q
  kept start q h = in_s' start q (IsGroupQueue-Saved start q b (IsGroupQueue-Saved start q a h))

  same_self : same_group id id ≡ true
  same_self = ground arith

  IsValid-s' : IsValid s'.file
  unfolding s' set_last_group_message_id
  IsValid-s' = record {
    header = b.valid.header;
    bounded = b.valid.bounded;
    newest = b.valid.newest;
  }

  in_front :
      (q : List GroupEntry)
      → link_id < 2 ^ 63
      → has_im_body m ≡ true
      → IsGroupQueue s.file newest_id q
      → IsGroupQueue file2 link_id ((new_group_link id device_id msgid newest_id, m) ∷ q)
  unfolding new_group_link newest_id
  in_front q small w h = (
    omega (arith, b.positive),
    small,
    b.loads,
    b.keeps msgid m a.loads,
    omega (arith, a.positive),
    w,
    omega (arith, l.last, b.fresh, a.grows, a.fresh),
    IsGroupQueue-Saved newest_id q b (IsGroupQueue-Saved newest_id q a h),
  )

  replay :
      (t : GroupStorage)
      → get_last_group_message_id id (
          exec_group_message
            (group_link_message (new_group_link id device_id msgid newest_id))
            link_id
            t)
        ≡ get_last_group_message_id id s'
  replay t =
      rw
        (
          exec_group_message-link id device_id msgid newest_id link_id t,
          get-set_last_group_message_id id id link_id t,
          index-s' id,
          same_self,
        )
        refl

  pushed : link_id < 2 ^ 63 → has_im_body m ≡ true → PushedToGroup id device_id m s msgid s'
  unfolding newest_id
  pushed small w = record {
    valid = IsValid-s';
    loads = unfold s' set_last_group_message_id load_message in (b.keeps msgid m a.loads);
    own = λ q h.
        rw (index-s' id, same_self)
          (in_s' link_id ((new_group_link id device_id msgid newest_id, m) ∷ q)
            (in_front q small w h));
    others = λ j q e h. rw (index-s' j, e) (kept _ q h);
    replayed =
        (link_id, unfold s' set_last_group_message_id load_message in b.loads, λ t. replay t);
  }

next_message_id-small :
    (s : StorageFile) (id : ℕ)
    → IsValid s
    → id < next_message_id s
    → s.block_no < 2 ^ 35
    → id < 2 ^ 63
unfolding next_message_id
next_message_id-small s id v h k = omega (arith, v.bounded)

save_group_message_two :
    (id : GroupId) (device_id : ℕ) (m : Message) (s : GroupStorage) (msgid link_id : ℕ)
    (file1 file2 : StorageFile)
    → save_message m s.file ≡ some (msgid, file1)
    → save_message
        (group_link_message (new_group_link id device_id msgid (get_last_group_message_id id s)))
        file1
      ≡ some (link_id, file2)
    → save_group_message id device_id m s
      ≡ some (msgid, set_last_group_message_id id link_id (record s { file = file2 }))
unfolding save_group_message
save_group_message_two id device_id m s msgid link_id file1 file2 e1 e2 =
    rw (e1, save_group_message) (rw e2)

-- In a valid storage that stays below half of the ids, `SaveGroupMessage` of a message below 32
-- KiB, whose fields fit, which has a chat body if its command is that of a group chat, under
-- ids that fit their fields, succeeds and leaves a valid storage. The message is loaded under
-- the returned id and stands in front of the group's queue; the queues of the other groups are
-- as they were. Any storage that executes the written link with `execMessage` has the same
-- newest link of the group.
pub save_group_message-Pushed :
    (id : GroupId) (device_id : ℕ) (m : Message) (s : GroupStorage)
    → IsValid s.file
    → s.file.block_no + 3 < 2 ^ 35
    → FitsMessage (32 * 1024) m
    → has_im_body m ≡ true
    → FitsGroupLink id device_id (get_last_group_message_id id s) (next_message_id s.file)
    → (msgid : ℕ) × (s' : GroupStorage) × (save_group_message id device_id m s ≡ some (msgid, s'))
      × PushedToGroup id device_id m s msgid s'
save_group_message-Pushed id device_id m s v small f w l =
    let (msgid, file1, e1, a) = save_message-Saved m s.file v f in
    let bound = next_message_id-bound s.file v (omega arith) in
    let bound1 = next_message_id-bound file1 a.valid (omega (arith, a.blocks)) in
    let off = new_group_link id device_id msgid (get_last_group_message_id id s) in
    let fits = new_group_link-Fits id device_id msgid _ _ l bound (omega (arith, a.grows)) in
    let (link_id, file2, e2, b) = save_message-Saved (group_link_message off) file1 a.valid fits in
    (
      msgid,
      s' id device_id m s msgid link_id file1 file2 a b l,
      unfold s' in save_group_message_two id device_id m s msgid link_id file1 file2 e1 e2,
      pushed id device_id m s msgid link_id file1 file2 a b l
          (next_message_id-small file2 link_id b.valid b.grows (omega (arith, a.blocks, b.blocks)))
          w,
    )
