-- ===== src/Storage/PeerLaws.antt =====
-- `SavePeerMessage` and `execMessage` as operations on queues.
use im_service_modify.Prelude.{
  ap, ℕ, ◌+◌, ◌*◌, ◌%◌, ◌^◌, ◌≤◌, ◌<◌, ◌≡◌, refl, ◌∙◌, Bool, false, List, ◌∷◌, ◌==◌, if◌then◌else◌,
  arith, some, Bool-cases, inl, inr,
}
use im_service_modify.Wire.{ok}
use im_service_modify.Message.Body.{Message}
use im_service_modify.Message.Offline.{OfflineMessage}
use im_service_modify.Message.Fits.{FitsMessage}
use im_service_modify.Storage.File.{StorageFile, save_message, load_message, next_message_id}
use im_service_modify.Storage.FileLaws.{IsValid}
use im_service_modify.Storage.SaveLaws.{Saved, save_message-Saved}
use im_service_modify.Storage.Peer.{
  UserId, UserIndex, PeerStorage, batch_size, same_user, get_peer_index, set_peer_index,
  is_group_message, new_link, link_message, next_index, save_peer_message,
}
use im_service_modify.Storage.Queue.{
  Entry, IsQueue, IsQueue-Saved, IsQueue-last_id, FitsLink, new_link-Fits, link_message-Fits,
  get-set_peer_index,
}

-- What `SavePeerMessage` has done for the user `id`.
pub record Pushed (id : UserId) (device_id : ℕ) (m : Message) (s : PeerStorage) (msgid : ℕ)
    (s' : PeerStorage) : Type 0 where
  pub valid : IsValid s'.file
  pub loads : load_message msgid s'.file ≡ ok m
  -- The user has one message more, in 64 bits.
  pub seq : (get_peer_index id s').last_seq_id ≡ ((get_peer_index id s).last_seq_id + 1) % 2 ^ 64
  -- The user's own queue has the message in front.
  pub own :
      (q : List Entry)
      → IsQueue (λ off. off.prev_msgid) s.file (get_peer_index id s).last_id q
      → IsQueue
          (λ off. off.prev_msgid)
          s'.file
          (get_peer_index id s').last_id
          ((new_link id device_id msgid (get_peer_index id s), m) ∷ q)
  -- A group message is not in the peer queue, any other is.
  pub peer :
      (q : List Entry)
      → IsQueue (λ off. off.prev_peer_msgid) s.file (get_peer_index id s).last_peer_id q
      → IsQueue
          (λ off. off.prev_peer_msgid)
          s'.file
          (get_peer_index id s').last_peer_id
          (if is_group_message m
            then q
            else (new_link id device_id msgid (get_peer_index id s), m) ∷ q)
  -- Every thousandth message is in the batch queue.
  pub batch :
      (q : List Entry)
      → IsQueue (λ off. off.prev_batch_msgid) s.file (get_peer_index id s).last_batch_id q
      → IsQueue
          (λ off. off.prev_batch_msgid)
          s'.file
          (get_peer_index id s').last_batch_id
          (if ((get_peer_index id s).last_seq_id + 1) % 2 ^ 64 % batch_size == 0
            then (new_link id device_id msgid (get_peer_index id s), m) ∷ q
            else q)
  -- The other users have the queues that they had.
  pub others :
      (j : UserId) (next : OfflineMessage → ℕ) (start : ℕ) (q : List Entry)
      → same_user j id ≡ false
      → IsQueue next s.file start q
      → (get_peer_index j s' ≡ get_peer_index j s) × IsQueue next s'.file start q

-- A queue whose front link was just saved.
queue_push :
    (next : OfflineMessage → ℕ) (g : Bool) (off : OfflineMessage) (m : Message)
    (file file1 file2 : StorageFile) (link_id : ℕ) (q : List Entry)
    → Saved m file off.msgid file1
    → Saved (link_message g off) file1 link_id file2
    → next off < next_message_id file
    → IsQueue next file (next off) q
    → IsQueue next file2 link_id ((off, m) ∷ q)
queue_push next g off m file file1 file2 link_id q a b below h = (
  omega (arith, b.positive),
  (g, b.loads),
  b.keeps off.msgid m a.loads,
  omega (arith, a.positive),
  omega (arith, b.fresh, a.grows, a.fresh),
  IsQueue-Saved next (next off) q b (IsQueue-Saved next (next off) q a h),
)

pub next_message_id-bound :
    (s : StorageFile) → IsValid s → s.block_no < 2 ^ 36 → next_message_id s ≤ 256 ^ 8
unfolding next_message_id
next_message_id-bound s v h = omega (arith, v.bounded)

pub save_peer_message_two :
    (id : UserId) (device_id : ℕ) (m : Message) (s : PeerStorage) (msgid link_id : ℕ)
    (file1 file2 : StorageFile)
    → save_message m s.file ≡ some (msgid, file1)
    → save_message
        (link_message (is_group_message m) (new_link id device_id msgid (get_peer_index id s)))
        file1
      ≡ some (link_id, file2)
    → save_peer_message id device_id m s
      ≡ some (
        msgid,
        set_peer_index id
            (next_index (is_group_message m) link_id (get_peer_index id s))
            (record s { file = file2 }),
      )
unfolding save_peer_message
save_peer_message_two id device_id m s msgid link_id file1 file2 e1 e2 =
    rw (e1, save_peer_message) (rw e2)

-- The two records that were written make the new queues.
module _ (id : UserId) (device_id : ℕ) (m : Message) (s : PeerStorage) (msgid link_id : ℕ)
    (file1 file2 : StorageFile) (a : Saved m s.file msgid file1)
    (b : Saved
      (link_message (is_group_message m) (new_link id device_id msgid (get_peer_index id s)))
      file1
      link_id
      file2)
    (l : FitsLink id device_id (get_peer_index id s) (next_message_id s.file)) where
  ui : UserIndex
  ui = get_peer_index id s

  s' : PeerStorage
  s' = set_peer_index id (next_index (is_group_message m) link_id ui) (record s { file = file2 })

  index-s' : get_peer_index id s' ≡ next_index (is_group_message m) link_id ui
  unfolding get_peer_index s' ui set_peer_index
  index-s' = ground arith

  in_s' :
      (next : OfflineMessage → ℕ) (start : ℕ) (q : List Entry)
      → IsQueue next file2 start q
      → IsQueue next s'.file start q
  unfolding s' set_peer_index
  in_s' next start q h = IsQueue-last_id next file2 _ start q h

  kept :
      (next : OfflineMessage → ℕ) (start : ℕ) (q : List Entry)
      → IsQueue next s.file start q
      → IsQueue next s'.file start q
  kept next start q h =
      in_s' next start q (IsQueue-Saved next start q b (IsQueue-Saved next start q a h))

  s'-IsValid : IsValid s'.file
  unfolding s' set_peer_index
  s'-IsValid = record {
    header = b.valid.header;
    bounded = b.valid.bounded;
    newest = b.valid.newest;
  }

  front :
      (next : OfflineMessage → ℕ) (q : List Entry)
      → next (new_link id device_id msgid ui) < next_message_id s.file
      → IsQueue next s.file (next (new_link id device_id msgid ui)) q
      → IsQueue next s'.file link_id ((new_link id device_id msgid ui, m) ∷ q)
  unfolding new_link ui
  front next q below h = in_s' next link_id ((new_link id device_id msgid ui, m) ∷ q) (
      queue_push next (is_group_message m) (new_link id device_id msgid ui) m s.file file1 file2
        link_id q a b below h)

  pushed : Pushed id device_id m s msgid s'
  unfolding ui
  pushed = record {
    valid = s'-IsValid;
    loads = unfold s' set_peer_index load_message in (b.keeps msgid m a.loads);
    seq = ap (λ u. u.last_seq_id) index-s' ∙ unfold next_index ui in refl;
    own =
        λ q h. rw index-s' (unfold next_index new_link in front (λ off. off.prev_msgid) q l.last h);
    peer = λ q h. rw index-s' (
        unfold next_index in
        elim (Bool-cases (is_group_message m)) [
          | inl e ↦ rw e (kept (λ off. off.prev_peer_msgid) ui.last_peer_id q h)
          | inr e ↦ rw e (unfold new_link in front (λ off. off.prev_peer_msgid) q l.peer h)
        ]);
    batch = λ q h. rw index-s' (
        unfold next_index in
        elim (Bool-cases ((ui.last_seq_id + 1) % 2 ^ 64 % batch_size == 0)) [
          | inl e ↦ rw e (unfold new_link in front (λ off. off.prev_batch_msgid) q l.batch h)
          | inr e ↦ rw e (kept (λ off. off.prev_batch_msgid) ui.last_batch_id q h)
        ]);
    others = λ j next start q e h. (
      unfold s' in
          (get-set_peer_index id j _ (record s { file = file2 })
            ∙ rw e (unfold get_peer_index in refl)),
      kept next start q h,
    );
  }

-- In a valid storage with room for two more blocks, `SavePeerMessage` of a message below 32
-- KiB, whose fields fit, under ids that fit theirs, succeeds and leaves a valid storage. The
-- message is loaded under the returned id, the user's number of messages, in 64 bits, is one
-- higher, and the message stands in front of the user's own queue; in front of the peer queue
-- unless it is a group message; in front of the batch queue when the new number is a multiple
-- of the batch size. The queues of every other user are as they were.
pub save_peer_message-Pushed :
    (id : UserId) (device_id : ℕ) (m : Message) (s : PeerStorage)
    → IsValid s.file
    → s.file.block_no + 2 < 2 ^ 36
    → FitsMessage (32 * 1024) m
    → FitsLink id device_id (get_peer_index id s) (next_message_id s.file)
    → (msgid : ℕ) × (s' : PeerStorage) × (save_peer_message id device_id m s ≡ some (msgid, s'))
      × Pushed id device_id m s msgid s'
save_peer_message-Pushed id device_id m s v small f l =
    let (msgid, file1, e1, a) = save_message-Saved m s.file v f in
    let bound = next_message_id-bound s.file v (omega arith) in
    let bound1 = next_message_id-bound file1 a.valid (omega (arith, a.blocks)) in
    let off = new_link id device_id msgid (get_peer_index id s) in
    let fits =
      link_message-Fits (is_group_message m) off
        (new_link-Fits id device_id msgid _ _ l bound (omega (arith, a.grows))) in
    let (link_id, file2, e2, b) =
      save_message-Saved (link_message (is_group_message m) off) file1 a.valid fits in
    (
      msgid,
      s' id device_id m s msgid link_id file1 file2 a b l,
      unfold s' ui in save_peer_message_two id device_id m s msgid link_id file1 file2 e1 e2,
      pushed id device_id m s msgid link_id file1 file2 a b l,
    )
