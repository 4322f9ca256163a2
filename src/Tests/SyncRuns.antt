-- ===== src/Tests/SyncRuns.antt =====
-- A slave at concrete inputs.
use im_service_modify.Prelude.{ℕ, ◌≡◌, refl, none, some, List, [], ◌∷◌}
use im_service_modify.Message.Body.{Message}
use im_service_modify.Storage.File.{StorageFile}
use im_service_modify.Storage.FileLaws.{IsValid}
use im_service_modify.Storage.Sync.{Storage, save_sync_message}
use im_service_modify.Storage.Sync.{exec_both}
use im_service_modify.Storage.File.{StorageFile, load_message, save_message}
use im_service_modify.Wire.{ok}
use im_service_modify.Storage.SyncLaws.{SameFiles}
use im_service_modify.Storage.SyncRunLaws.{
  save_all, receive_all, receive_all-replicates, save_sync_message_twice,
}
use im_service_modify.Storage.Peer.{PeerStorage, save_peer_message, to_body}
use im_service_modify.Storage.SyncPeerLaws.{after_both, save_peer_message-replicates}
use im_service_modify.Tests.StorageRuns.{
  alice, fresh_peers, alice-Fits, block_no-fresh, fresh, fresh-IsValid, hello, hello-Fits,
}

abbrev new_slave : Storage
new_slave = record { file = fresh; peer_index = λ id. none; group_index = λ id. 0 }

receive_all-replicates_example :
    (sent : List (ℕ × Message)) × (master' : StorageFile) × (save_all (hello ∷ hello ∷ []) fresh
      ≡ some (sent, master'))
    × IsValid master'
    × SameFiles (receive_all sent new_slave).file master'
receive_all-replicates_example =
    receive_all-replicates (hello ∷ hello ∷ []) fresh new_slave fresh-IsValid
      (hello-Fits, (hello-Fits, tt)) (record { files = refl; block = refl })

save_sync_message_twice_example :
    (id : ℕ) × (master' : StorageFile) × (save_message hello fresh ≡ some (id, master'))
    × (load_message id (save_sync_message id hello new_slave).file ≡ ok hello)
    × ((file : StorageFile) × (save_sync_message id hello new_slave
          ≡ exec_both hello id (record new_slave { file = file })))
    × (save_sync_message id hello (save_sync_message id hello new_slave)
        ≡ save_sync_message id hello new_slave)
save_sync_message_twice_example =
    save_sync_message_twice hello fresh new_slave fresh-IsValid hello-Fits
      (record { files = refl; block = refl })

save_peer_message-replicates_example :
    (msgid : ℕ) × (link_id : ℕ) × (s' : PeerStorage) × (save_peer_message alice 3 hello fresh_peers
      ≡ some (msgid, s'))
    × SameFiles (after_both alice 3 hello msgid link_id fresh_peers new_slave).file s'.file
    × ((after_both alice 3 hello msgid link_id fresh_peers new_slave).peer_index ≡ s'.message_index)
save_peer_message-replicates_example =
    save_peer_message-replicates alice 3 hello fresh_peers new_slave fresh-IsValid block_no-fresh
      hello-Fits alice-Fits (unfold to_body in refl) (record { files = refl; block = refl }) refl
