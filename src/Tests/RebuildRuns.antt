-- ===== src/Tests/RebuildRuns.antt =====
-- A concrete log of block files, and the rebuilding of its index.
use im_service_modify.Prelude.{◌≡◌, refl, some, [], ◌∷◌, arith}
use im_service_modify.Wire.{ok}
use im_service_modify.Storage.Peer.{PeerStorage, to_body}
use im_service_modify.Storage.Rebuild.{create_peer_index}
use im_service_modify.Storage.RebuildLaws.{no_users}
use im_service_modify.Storage.RebuildSaveLaws.{FitsSave}
use im_service_modify.Storage.RebuildRunLaws.{
  Save, save_peer_messages, first_start, create_peer_index-rebuilds,
}
use im_service_modify.Tests.StorageRuns.{alice, hello, hello-Fits}

abbrev to_alice : Save
to_alice = record { user = alice; device_id = 3; msg = hello }

to_alice-Fits : FitsSave alice 3 hello
unfolding to_body
to_alice-Fits = record {
  appid = omega arith;
  uid = omega arith;
  device = omega arith;
  fits = hello-Fits;
  no_link = refl;
}

create_peer_index-rebuilds_example :
    (s : PeerStorage) × (t : PeerStorage) × (save_peer_messages
        (to_alice ∷ to_alice ∷ [])
        (no_users first_start)
      ≡ some s)
    × (create_peer_index 5 (no_users s.file) ≡ ok t)
    × (t.message_index ≡ s.message_index)
create_peer_index-rebuilds_example =
    create_peer_index-rebuilds (to_alice ∷ to_alice ∷ []) 5 (to_alice-Fits, (to_alice-Fits, tt))
      (omega arith) (omega arith)
