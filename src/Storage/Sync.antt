-- ===== src/Storage/Sync.antt =====
-- ServerIMS/model/storage.go: the storage of a server, and what a slave does with the messages that
-- its master saved. The three parts of `Storage` share one file. A message that a slave receives is
-- not nil.
use im_service_modify.Prelude.{
  ℕ, zero, suc, ◌+◌, ◌-◌, ◌||◌, [], ◌∷◌, ◌++◌, ltb, ◌==◌, length, if◌then◌else◌, Option,
}
use im_service_modify.Wire.{Bytes}
use im_service_modify.Message.Body.{Message, Messages, no_messages, more_messages}
use im_service_modify.Storage.File.{
  StorageFile, update, write_file, open_write_file, record_bytes, get_block_no, get_block_offset,
}
use im_service_modify.Storage.Peer.{UserId, UserIndex, PeerStorage, exec_message}
use im_service_modify.Storage.Group.{GroupId, GroupStorage, exec_group_message}

pub record Storage : Type 0 where
  pub file : StorageFile
  pub peer_index : UserId → Option UserIndex
  pub group_index : GroupId → ℕ

abbrev pub peer_storage : Storage → PeerStorage
peer_storage s = record { file = s.file; message_index = s.peer_index }

-- `execMessage` of both indices
unfoldable pub exec_both : Message → ℕ → Storage → Storage
exec_both m msgid s =
    let p = exec_message m msgid (peer_storage s) in
    let over : GroupStorage = record { file = p.file; message_index = s.group_index } in
    let g = exec_group_message m msgid over in
    record { file = g.file; peer_index = p.message_index; group_index = g.message_index }

abbrev pub padding : ℕ → Bytes
padding zero = []
padding (suc n) = 0 ∷ padding n

-- The file that a message with a position in block `n` goes to.
unfoldable pub sync_target : ℕ → StorageFile → StorageFile
sync_target n f = if n == f.block_no + 1 then open_write_file n f else f

-- The record at an offset, behind zeros if the file is too short.
unfoldable pub write_at : ℕ → Message → StorageFile → StorageFile
write_at offset m f = record f {
  files =
      update f.files f.block_no
        (write_file f ++ (padding (offset - length (write_file f)) ++ record_bytes m));
}

-- The storage of `SaveSyncMessage` once the block is known to be the current or the next one.
unfoldable pub sync_in_block : ℕ → Message → StorageFile → Storage → Storage
sync_in_block msgid m f s =
    if ltb (get_block_offset msgid) (length (write_file f))
    then record s { file = f }
    else exec_both m msgid (record s { file = write_at (get_block_offset msgid) m f })

-- `SaveSyncMessage`: a message of an earlier block, or of one after the next, is skipped.
unfoldable pub save_sync_message : ℕ → Message → Storage → Storage
save_sync_message msgid m s =
    let n = get_block_no msgid in
    if ltb n s.file.block_no || ltb (s.file.block_no + 1) n
    then s
    else sync_in_block msgid m (sync_target n s.file) s

-- `SaveSyncMessageBatch`: the positions follow from the sizes of the records.
unfoldable pub save_sync_message_batch : ℕ → Messages → Storage → Storage
save_sync_message_batch id no_messages s = s
save_sync_message_batch id (more_messages m ms) s =
    save_sync_message_batch (id + length (record_bytes m)) ms (save_sync_message id m s)
