-- ===== src/Storage/SyncLaws.antt =====
-- A slave that receives what its master saved has the master's files.
use im_service_modify.Prelude.{
  false, ne→==, eq→==, ◌||◌, le→ltb, ◌-◌, ◌==◌, ℕ, ◌+◌, ◌*◌, ◌≡◌, refl, ◌∙◌, Option, none, some,
  length, arith, Bool-cases, inl, inr, ltb,
}
use im_service_modify.Message.Body.{flag_of, Message, Body, cmd_of, body_of}
use im_service_modify.Message.Creators.{msg_group_im_list}
use im_service_modify.Message.Offline.{OfflineMessage}
use im_service_modify.Message.Fits.{FitsMessage}
use im_service_modify.Storage.File.{
  StorageFile, block_size, write_file, open_write_file, record_bytes, get_block_no,
  get_block_offset, save_message, next_message_id, appended,
}
use im_service_modify.Storage.FileLaws.{IsValid, block_of_next, length-record_bytes}
use im_service_modify.Storage.SaveLaws.{
  Saved, target-Saved, target, target-write_file-bounds, record-bounds, save_message-target,
}
use im_service_modify.Storage.Peer.{PeerStorage, exec_message, set_peer_index, to_body, exec_link}
use im_service_modify.Storage.Group.{
  GroupStorage, exec_group_message, set_last_group_message_id, exec_group_link,
}
use im_service_modify.Storage.Sync.{
  peer_storage, Storage, exec_both, sync_target, write_at, sync_in_block, save_sync_message,
}

-- Two storages have the same files, and write to the same one.
pub record SameFiles (f g : StorageFile) : Type 0 where
  pub files : f.files ≡ g.files
  pub block : f.block_no ≡ g.block_no

pub SameFiles-trans : (f g h : StorageFile) → SameFiles f g → SameFiles g h → SameFiles f h
SameFiles-trans f g h a b = record { files = a.files ∙ b.files; block = a.block ∙ b.block }

exec_link-SameFiles :
    (cmd flag msgid : ℕ) (o : Option OfflineMessage) (s : PeerStorage)
    → SameFiles (exec_link cmd flag msgid o s).file s.file
unfolding exec_link set_peer_index
exec_link-SameFiles cmd flag msgid none s = record { files = refl; block = refl }
exec_link-SameFiles cmd flag msgid (some off) s = record {
  files = ground arith;
  block = ground arith;
}

exec_group_link-SameFiles :
    (msgid : ℕ) (b : Body) (s : GroupStorage) → SameFiles (exec_group_link msgid b s).file s.file
unfolding exec_group_link set_last_group_message_id
exec_group_link-SameFiles msgid (Body.group_offline_message off) s = record {
  files = refl;
  block = refl;
}
exec_group_link-SameFiles msgid _ s = record { files = refl; block = refl }

exec_group_message-SameFiles :
    (m : Message) (msgid : ℕ) (s : GroupStorage)
    → SameFiles (exec_group_message m msgid s).file s.file
unfolding exec_group_message
exec_group_message-SameFiles m msgid s = elim (Bool-cases (cmd_of m == msg_group_im_list)) [
  | inl e ↦ rw e (exec_group_link-SameFiles msgid (body_of m) s)
  | inr e ↦ rw e (record { files = refl; block = refl })
]

pub exec_both-SameFiles :
    (m : Message) (msgid : ℕ) (s : Storage) → SameFiles (exec_both m msgid s).file s.file
unfolding exec_both exec_message
exec_both-SameFiles m msgid s =
    SameFiles-trans _ _ _ (exec_group_message-SameFiles m msgid _)
      (exec_link-SameFiles (cmd_of m) (flag_of m) msgid (to_body (body_of m)) (peer_storage s))

-- The block and the offset of the next record, whether or not it opens a block.
next_position :
    (m : Message) (s : StorageFile)
    → IsValid s
    → FitsMessage (32 * 1024) m
    → (get_block_no (next_message_id (target m s)) ≡ (target m s).block_no)
      × (get_block_offset (next_message_id (target m s)) ≡ length (write_file (target m s)))
next_position m s v f =
    let h = target-write_file-bounds m s v (record-bounds m f) in
    block_of_next (target m s) (omega (arith, h, length-record_bytes m))

sync_target-target :
    (m : Message) (s f : StorageFile)
    → SameFiles f s
    → SameFiles (sync_target (target m s).block_no f) (target m s)
unfolding sync_target target open_write_file
sync_target-target m s f e =
    elim (Bool-cases (ltb block_size (length (write_file s) + length (record_bytes m)))) [
      | inl b ↦
          rw (b, e.block, eq→== (s.block_no + 1) (s.block_no + 1) refl)
            (record { files = rw e.files refl; block = refl })
      | inr b ↦
          rw (b, e.block, ne→== s.block_no (s.block_no + 1) (omega arith))
            (record { files = e.files; block = refl })
    ]

same-write_file : (f g : StorageFile) → SameFiles f g → write_file f ≡ write_file g
same-write_file f g e = rw (e.files, e.block) refl

write_at-appended :
    (m : Message) (f t : StorageFile)
    → SameFiles f t
    → SameFiles (write_at (length (write_file t)) m f) (appended m t)
unfolding write_at appended
write_at-appended m f t e =
    let none_missing : length (write_file t) - length (write_file t) ≡ 0 = omega arith in
    record { files = rw (e.files, e.block, none_missing) refl; block = e.block }

-- A slave with the master's files does not skip the block.
same_block :
    (m : Message) (s f : StorageFile)
    → SameFiles f s
    → (ltb (target m s).block_no f.block_no || ltb (f.block_no + 1) (target m s).block_no) ≡ false
unfolding target open_write_file
same_block m s f e = rw e.block (ground arith)

-- A slave with the master's block files writes and executes the message that the master saved.
pub save_sync_message-executes :
    (m : Message) (master : StorageFile) (slave : Storage)
    → IsValid master
    → FitsMessage (32 * 1024) m
    → SameFiles slave.file master
    → (id : ℕ) × (master' : StorageFile) × (save_message m master ≡ some (id, master'))
      × Saved m master id master'
      × (file : StorageFile) × (save_sync_message id m slave
          ≡ exec_both m id (record slave { file = file }))
      × SameFiles file master'
unfolding save_sync_message sync_in_block
save_sync_message-executes m master slave v f e =
    let t = target m master in
    let h = target-write_file-bounds m master v (record-bounds m f) in
    let (n, o) = next_position m master v f in
    let g = sync_target-target m master slave.file e in
    (
      next_message_id t,
      appended m t,
      save_message-target m master h,
      target-Saved m master v f,
      write_at (length (write_file t)) m (sync_target t.block_no slave.file),
      rw
          (
            n,
            o,
            same_block m master slave.file e,
            same-write_file _ _ g,
            le→ltb (length (write_file t)) (length (write_file t)) (omega arith),
          )
          refl,
      write_at-appended m _ t g,
    )

-- When a master with a valid file saves a message below 32 KiB and a slave that has the same block
-- files receives the message under the id that the master returned, the slave's block files are
-- again those of the master, whether or not the message opened a new block.
pub save_sync_message-replicates :
    (m : Message) (master : StorageFile) (slave : Storage)
    → IsValid master
    → FitsMessage (32 * 1024) m
    → SameFiles slave.file master
    → (id : ℕ) × (master' : StorageFile) × (save_message m master ≡ some (id, master'))
      × Saved m master id master'
      × SameFiles (save_sync_message id m slave).file master'
save_sync_message-replicates m master slave v f e =
    let (id, master', saved, a, file, run, same) =
      save_sync_message-executes m master slave v f e in
    (id, master', saved, a, rw run (SameFiles-trans _ _ _ (exec_both-SameFiles m id _) same))
