-- ===== src/Storage/RebuildLaws.antt =====
-- The index that a server rebuilds when it starts is the index that it kept while it ran.
use im_service_modify.Prelude.{
  ℕ, suc, ◌+◌, ◌*◌, ◌<◌, ◌≡◌, refl, ap, ◌∙◌, List, ◌==◌, ◌||◌, length, Option, none, some, arith,
  Bool-cases, inl, inr,
}
use im_service_modify.Message.Body.{Message, cmd_of, body_of, flag_of}
use im_service_modify.Message.Offline.{OfflineMessage}
use im_service_modify.Message.Creators.{msg_offline, msg_offline_v2, msg_offline_v3, msg_offline_v4}
use im_service_modify.Storage.File.{StorageFile, block_size, write_file, next_message_id, appended}
use im_service_modify.Storage.FileLaws.{IsValid}
use im_service_modify.Storage.SaveLaws.{target}
use im_service_modify.Storage.Peer.{
  UserId, UserIndex, PeerStorage, get_peer_index, set_peer_index, to_body, exec_message, exec_link,
}
use im_service_modify.Storage.Rebuild.{peer_step}
use im_service_modify.Storage.LogLaws.{replay_blocks, IsLogged}
use im_service_modify.Storage.LogSaveLaws.{saved_log, replay-saved_log}

-- `execMessage` looks at no file.
exec_link-file :
    (cmd flag msgid : ℕ) (o : Option OfflineMessage) (s : PeerStorage) (f : StorageFile)
    → (exec_link cmd flag msgid o (record s { file = f })).message_index
      ≡ (exec_link cmd flag msgid o s).message_index
unfolding exec_link set_peer_index get_peer_index
exec_link-file cmd flag msgid none s f = refl
exec_link-file cmd flag msgid (some off) s f = elim (Bool-cases (cmd == msg_offline)) [
  | inl e ↦ rw e refl
  | inr e ↦ elim (Bool-cases (cmd == msg_offline_v2)) [
    | inl e' ↦ rw (e, e') refl
    | inr e' ↦ elim (Bool-cases (cmd == msg_offline_v3 || cmd == msg_offline_v4)) [
      | inl e'' ↦ rw (e, e', e'') refl
      | inr e'' ↦ rw (e, e', e'') refl
    ]
  ]
]

pub exec_message-index :
    (m : Message) (msgid : ℕ) (s t : PeerStorage)
    → s.message_index ≡ t.message_index
    → (exec_message m msgid s).message_index ≡ (exec_message m msgid t).message_index
unfolding exec_message
exec_message-index m msgid s t e =
    ap
      (λ (x : UserId → Option UserIndex).
        (exec_link (cmd_of m) (flag_of m) msgid (to_body (body_of m))
          (record s { message_index = x })).message_index)
      e
    ∙ exec_link-file (cmd_of m) (flag_of m) msgid (to_body (body_of m)) t s.file

abbrev pub no_users : StorageFile → PeerStorage
no_users f = record { file = f; message_index = λ id. none }

abbrev pub replayed : (ℕ → List Message) → StorageFile → PeerStorage → PeerStorage
replayed log f s = replay_blocks peer_step log (suc f.block_no) s

-- The index is what replaying the log gives, and it names links that were written.
pub record IsIndexed (log : ℕ → List Message) (s : PeerStorage) : Type 0 where
  pub valid : IsValid s.file
  pub logged : IsLogged log s.file
  pub index : (f : StorageFile) → (replayed log s.file (no_users f)).message_index ≡ s.message_index
  pub last : (j : UserId) → (get_peer_index j s).last_id < next_message_id s.file
  pub peer : (j : UserId) → (get_peer_index j s).last_peer_id < next_message_id s.file
  pub batch : (j : UserId) → (get_peer_index j s).last_batch_id < next_message_id s.file

pub replayed-saved :
    (m : Message) (log : ℕ → List Message) (f : StorageFile) (s : PeerStorage)
    → IsValid f
    → IsLogged log f
    → replayed (saved_log m f log) (appended m (target m f)) s
      ≡ exec_message m (next_message_id (target m f)) (replayed log f s)
unfolding appended next_message_id
replayed-saved m log f s v l =
    let t = target m f in
    let e : length (write_file t) + t.block_no * block_size
        ≡ t.block_no * block_size + length (write_file t) =
      omega arith in
    rw e (replay-saved_log peer_step m log f s v l)
