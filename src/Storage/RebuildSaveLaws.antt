-- ===== src/Storage/RebuildSaveLaws.antt =====
-- One call of `SavePeerMessage` keeps the index that the log gives.
use im_service_modify.Prelude.{
  refl, if◌then◌else◌, length, ◌≤◌, ℕ, ◌+◌, ◌*◌, ◌^◌, ◌<◌, ◌≡◌, ap, ◌∙◌, List, none, some, arith,
}
use im_service_modify.Message.Body.{Message, body_of}
use im_service_modify.Message.Fits.{FitsMessage}
use im_service_modify.Storage.File.{StorageFile, next_message_id, appended}
use im_service_modify.Storage.SaveLaws.{
  Saved, target, target-Saved, target-write_file-bounds, record-bounds, save_message-target,
}
use im_service_modify.Storage.Peer.{
  same_user, UserId, UserIndex, PeerStorage, get_peer_index, set_peer_index, is_group_message,
  to_body, new_link, link_message, next_index, save_peer_message,
}
use im_service_modify.Storage.Queue.{get-set_peer_index, new_link-Fits, link_message-Fits}
use im_service_modify.Storage.PeerLaws.{next_message_id-bound, save_peer_message_two}
use im_service_modify.Storage.ExecLaws.{exec_message-link, exec_message_other}
use im_service_modify.Storage.LogLaws.{IsLogged}
use im_service_modify.Storage.LogSaveLaws.{length-saved_log, saved_log, saved_log-IsLogged}
use im_service_modify.Storage.RebuildLaws.{
  exec_message-index, no_users, replayed, IsIndexed, replayed-saved,
}

-- What holds of a message that is saved for a user.
pub record FitsSave (id : UserId) (device_id : ℕ) (m : Message) : Type 0 where
  pub appid : id.appid < 256 ^ 8
  pub uid : id.uid < 256 ^ 8
  pub device : device_id < 256 ^ 8
  pub fits : FitsMessage (32 * 1024) m
  pub no_link : to_body (body_of m) ≡ none

module _ (id : UserId) (device_id : ℕ) (m : Message) (log : ℕ → List Message) (s : PeerStorage)
    (i : IsIndexed log s) (f : FitsSave id device_id m) (small : s.file.block_no + 2 < 2 ^ 36) where
  pub file1 : StorageFile
  file1 = appended m (target m s.file)

  pub msgid : ℕ
  msgid = next_message_id (target m s.file)

  pub a : Saved m s.file msgid file1
  unfolding msgid file1
  a = target-Saved m s.file i.valid f.fits

  pub link : Message
  link = link_message (is_group_message m) (new_link id device_id msgid (get_peer_index id s))

  pub ui : UserIndex
  ui = get_peer_index id s

  pub link-Fits : FitsMessage (32 * 1024) link
  unfolding link ui
  link-Fits = link_message-Fits (is_group_message m) _ (
      new_link-Fits id device_id msgid ui _
        (record {
          appid = f.appid;
          uid = f.uid;
          device = f.device;
          last = i.last id;
          peer = i.peer id;
          batch = i.batch id;
        })
        (next_message_id-bound s.file i.valid (omega arith))
        (omega (arith, a.grows, next_message_id-bound file1 a.valid (omega (arith, a.blocks)))))

  pub file2 : StorageFile
  file2 = appended link (target link file1)

  pub link_id : ℕ
  link_id = next_message_id (target link file1)

  pub b : Saved link file1 link_id file2
  unfolding link_id file2
  b = target-Saved link file1 a.valid link-Fits

  pub after : PeerStorage
  after = set_peer_index id (next_index (is_group_message m) link_id ui) (record s { file = file2 })

  pub log2 : ℕ → List Message
  log2 = saved_log link file1 (saved_log m s.file log)

  pub save_peer_message-after : save_peer_message id device_id m s ≡ some (msgid, after)
  unfolding after link ui file1 file2 msgid link_id
  save_peer_message-after =
      save_peer_message_two id device_id m s msgid link_id file1 file2
        (save_message-target m s.file
          (target-write_file-bounds m s.file i.valid (record-bounds m f.fits)))
        (save_message-target link file1
          (target-write_file-bounds link file1 a.valid (record-bounds link link-Fits)))

  pub log1-IsLogged : IsLogged (saved_log m s.file log) file1
  unfolding file1
  log1-IsLogged = saved_log-IsLogged m log s.file i.valid i.logged f.fits

  pub log2-IsLogged : IsLogged log2 file2
  unfolding log2 file2
  log2-IsLogged =
      saved_log-IsLogged link (saved_log m s.file log) file1 a.valid log1-IsLogged link-Fits

  -- The message is no link, and its link has the effect that `SavePeerMessage` has.
  pub index-after :
      (g : StorageFile) → (replayed log2 file2 (no_users g)).message_index ≡ after.message_index
  unfolding after log2 file2 link_id
  index-after g =
      let start = no_users g in
      let first : replayed (saved_log m s.file log) file1 start ≡ replayed log s.file start =
        unfold file1 in
        (replayed-saved m log s.file start i.valid i.logged ∙ exec_message_other m _ _ f.no_link) in
      ap (λ (p : PeerStorage). p.message_index)
        (replayed-saved link (saved_log m s.file log) file1 start a.valid log1-IsLogged)
      ∙ exec_message-index link link_id _ s (rw first (i.index g))
      ∙ unfold link ui set_peer_index in
        (ap (λ (p : PeerStorage). p.message_index)
          (exec_message-link id device_id msgid link_id (is_group_message m) s))

  pub index-at :
      (j : UserId)
      → get_peer_index j after ≡ (
          if same_user j id then next_index (is_group_message m) link_id ui else get_peer_index j s)
  unfolding after get_peer_index
  index-at j =
      get-set_peer_index id j (next_index (is_group_message m) link_id ui)
        (record s { file = file2 })

  pub next-after : next_message_id after.file ≡ next_message_id file2
  unfolding after set_peer_index next_message_id
  next-after = refl

  pub last-after : (j : UserId) → (get_peer_index j after).last_id < next_message_id after.file
  unfolding next_index
  last-after j =
      rw (index-at j, next-after) (ground (arith, i.last j, a.fresh, a.grows, b.fresh, b.grows))

  pub peer-after : (j : UserId) → (get_peer_index j after).last_peer_id < next_message_id after.file
  unfolding next_index ui
  peer-after j =
      rw (index-at j, next-after)
        (ground (arith, i.peer j, i.peer id, a.fresh, a.grows, b.fresh, b.grows))

  pub batch-after :
      (j : UserId) → (get_peer_index j after).last_batch_id < next_message_id after.file
  unfolding next_index ui
  batch-after j =
      rw (index-at j, next-after)
        (ground (arith, i.batch j, i.batch id, a.fresh, a.grows, b.fresh, b.grows))

  pub after-IsIndexed : IsIndexed log2 after
  unfolding after set_peer_index
  after-IsIndexed = record {
    valid = record { header = b.valid.header; bounded = b.valid.bounded; newest = b.valid.newest };
    logged = record {
      holds = log2-IsLogged.holds;
      fits = log2-IsLogged.fits;
      later = log2-IsLogged.later;
    };
    index = index-after;
    last = last-after;
    peer = peer-after;
    batch = batch-after;
  }

  pub block_no-after : after.file.block_no ≤ s.file.block_no + 2
  unfolding after set_peer_index
  block_no-after = omega (arith, a.blocks, b.blocks)

  pub length-after : (j : ℕ) → length (log2 j) ≤ length (log j) + 2
  unfolding log2
  length-after j = omega (
    arith,
    length-saved_log link file1 (saved_log m s.file log) j,
    length-saved_log m s.file log j,
  )
