-- ===== src/Storage/SyncPeerLaws.antt =====
-- The index of a slave along `SavePeerMessage` of its master.
use im_service_modify.Prelude.{ap, ℕ, ◌+◌, ◌*◌, ◌^◌, ◌<◌, ◌≡◌, refl, ◌∙◌, Bool, none, some, arith}
use im_service_modify.Message.Body.{Message, body_of}
use im_service_modify.Message.Fits.{FitsMessage}
use im_service_modify.Storage.File.{StorageFile, next_message_id}
use im_service_modify.Storage.FileLaws.{IsValid}
use im_service_modify.Storage.Peer.{
  UserId, PeerStorage, get_peer_index, set_peer_index, is_group_message, to_body, new_link,
  link_message, next_index, save_peer_message, exec_message,
}
use im_service_modify.Storage.Queue.{FitsLink, new_link-Fits, link_message-Fits}
use im_service_modify.Storage.PeerLaws.{next_message_id-bound, save_peer_message_two}
use im_service_modify.Storage.ExecLaws.{exec_message-link, exec_message_other}
use im_service_modify.Storage.Sync.{Storage, peer_storage, exec_both, save_sync_message}
use im_service_modify.Storage.SyncLaws.{
  SameFiles, SameFiles-trans, exec_both-SameFiles, save_sync_message-executes,
}

exec_both-peer_index :
    (m : Message) (msgid : ℕ) (t : Storage)
    → (exec_both m msgid t).peer_index ≡ (exec_message m msgid (peer_storage t)).message_index
unfolding exec_both
exec_both-peer_index m msgid t = refl

-- A message that is no link leaves the slave's index alone.
other-index :
    (m : Message) (msgid : ℕ) (t : Storage)
    → to_body (body_of m) ≡ none
    → (exec_both m msgid t).peer_index ≡ t.peer_index
other-index m msgid t e =
    exec_both-peer_index m msgid t
    ∙ ap (λ (p : PeerStorage). p.message_index) (exec_message_other m msgid (peer_storage t) e)

-- A link changes it as `SavePeerMessage` does.
link-index :
    (id : UserId) (device_id msgid link_id : ℕ) (g : Bool) (s : PeerStorage) (t : Storage)
    (file : StorageFile)
    → t.peer_index ≡ s.message_index
    → (exec_both
        (link_message g (new_link id device_id msgid (get_peer_index id s)))
        link_id
        t).peer_index
      ≡ (set_peer_index id
          (next_index g link_id (get_peer_index id s))
          (record s { file = file })).message_index
unfolding set_peer_index
link-index id device_id msgid link_id g s t file e =
    let same : get_peer_index id (peer_storage t) ≡ get_peer_index id s =
      unfold get_peer_index in rw e refl in
    let run = exec_message-link id device_id msgid link_id g (peer_storage t) in
    exec_both-peer_index _ link_id t
    ∙ ap (λ (p : PeerStorage). p.message_index) (rw same at run)
    ∙ rw e refl

-- The slave once it has received the message and its link.
unfoldable pub after_both : UserId → ℕ → Message → ℕ → ℕ → PeerStorage → Storage → Storage
after_both id device_id m msgid link_id s t =
    save_sync_message link_id
      (link_message (is_group_message m) (new_link id device_id msgid (get_peer_index id s)))
      (save_sync_message msgid m t)

-- When a master with a valid storage and room for two more blocks runs `SavePeerMessage` on a
-- message below 32 KiB, whose fields fit and that is no link itself, under ids that fit their
-- fields, and a slave with the same block files and the same index of users receives the two
-- messages that were saved, under their ids and in their order, the slave has the master's
-- block files and its index again.
pub save_peer_message-replicates :
    (id : UserId) (device_id : ℕ) (m : Message) (s : PeerStorage) (t : Storage)
    → IsValid s.file
    → s.file.block_no + 2 < 2 ^ 36
    → FitsMessage (32 * 1024) m
    → FitsLink id device_id (get_peer_index id s) (next_message_id s.file)
    → to_body (body_of m) ≡ none
    → SameFiles t.file s.file
    → t.peer_index ≡ s.message_index
    → (msgid : ℕ) × (link_id : ℕ) × (s' : PeerStorage) × (save_peer_message id device_id m s
        ≡ some (msgid, s'))
      × SameFiles (after_both id device_id m msgid link_id s t).file s'.file
      × ((after_both id device_id m msgid link_id s t).peer_index ≡ s'.message_index)
unfolding after_both
save_peer_message-replicates id device_id m s t v small f l other same index =
    let (msgid, file1, e1, a, f1, x1, same1) = save_sync_message-executes m s.file t v f same in
    let bound = next_message_id-bound s.file v (omega arith) in
    let bound1 = next_message_id-bound file1 a.valid (omega (arith, a.blocks)) in
    let g = is_group_message m in
    let off = new_link id device_id msgid (get_peer_index id s) in
    let fits =
      link_message-Fits g off
        (new_link-Fits id device_id msgid _ _ l bound (omega (arith, a.grows))) in
    let t1 = save_sync_message msgid m t in
    let files1 : SameFiles t1.file file1 =
      rw x1 (SameFiles-trans _ _ _ (exec_both-SameFiles m msgid _) same1) in
    let index1 : t1.peer_index ≡ s.message_index = rw x1 (other-index m msgid _ other ∙ index) in
    let (link_id, file2, e2, b, f2, x2, same2) =
      save_sync_message-executes (link_message g off) file1 t1 a.valid fits files1 in
    (
      msgid,
      link_id,
      set_peer_index id (next_index g link_id (get_peer_index id s)) (record s { file = file2 }),
      save_peer_message_two id device_id m s msgid link_id file1 file2 e1 e2,
      rw x2 (
          SameFiles-trans _ _ _ (exec_both-SameFiles _ link_id _)
            (unfold set_peer_index in record { files = same2.files; block = same2.block })),
      rw x2 (link-index id device_id msgid link_id g s (record t1 { file = f2 }) file2 index1),
    )
