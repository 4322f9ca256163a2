-- ===== src/Storage/RebuildRunLaws.antt =====
-- The rebuilt index along a run of `SavePeerMessage`.
use im_service_modify.Storage.FileLaws.{length-write_header}
use im_service_modify.Storage.Rebuild.{peer_step, create_peer_index}
use im_service_modify.Prelude.{
  refl, Option, [], length, ◌∷◌, ◌≤◌, append-nil, false, ℕ, ◌+◌, ◌*◌, ◌^◌, ◌<◌, ◌≡◌, List, none,
  some, arith,
}
use im_service_modify.Wire.{ok}
use im_service_modify.Message.Body.{Message}
use im_service_modify.Storage.File.{
  open_write_file, update, opened, write_header, StorageFile, next_message_id,
}
use im_service_modify.Storage.Peer.{UserId, PeerStorage, get_peer_index, save_peer_message}
use im_service_modify.Storage.LogLaws.{scan_blocks-logged, records, replay_blocks, replay}
use im_service_modify.Storage.RebuildLaws.{no_users, replayed, IsIndexed}
use im_service_modify.Storage.RebuildSaveLaws.{
  length-after, save_peer_message-after, block_no-after, after-IsIndexed, log2, after, FitsSave,
}

-- A message to be saved for a user.
pub record Save : Type 0 where
  pub user : UserId
  pub device_id : ℕ
  pub msg : Message

abbrev pub FitSaves : List Save → Type 0
FitSaves [] = Unit
FitSaves (x ∷ xs) = FitsSave x.user x.device_id x.msg × FitSaves xs

-- `SavePeerMessage` for each of them.
unfoldable pub save_peer_messages : List Save → PeerStorage → Option PeerStorage
save_peer_messages [] s = some s
save_peer_messages (x ∷ xs) s = elim (save_peer_message x.user x.device_id x.msg s) [
  | none ↦ none
  | some (_, s') ↦ save_peer_messages xs s'
]

save_peer_messages-IsIndexed :
    (saves : List Save) (log : ℕ → List Message) (s : PeerStorage)
    → IsIndexed log s
    → FitSaves saves
    → s.file.block_no + 2 * length saves < 2 ^ 36
    → (s' : PeerStorage) × (log' : ℕ → List Message) × (save_peer_messages saves s ≡ some s')
      × IsIndexed log' s'
      × ((j : ℕ) → length (log' j) ≤ length (log j) + 2 * length saves)
unfolding save_peer_messages
save_peer_messages-IsIndexed [] log s i f h = (s, log, refl, i, λ j. omega arith)
save_peer_messages-IsIndexed (x ∷ xs) log s i (f, fs) h =
    let small : s.file.block_no + 2 < 2 ^ 36 = omega arith in
    let s1 = after x.user x.device_id x.msg log s i f small in
    let (s2, log2', e, i2, b) =
      save_peer_messages-IsIndexed xs (log2 x.user x.device_id x.msg log s i f small) s1
        (after-IsIndexed x.user x.device_id x.msg log s i f small) fs
        (omega (arith, block_no-after x.user x.device_id x.msg log s i f small)) in
    (
      s2,
      log2',
      rw (save_peer_message-after x.user x.device_id x.msg log s i f small, save_peer_messages) e,
      i2,
      λ j. omega (arith, b j, length-after x.user x.device_id x.msg log s i f small j),
    )

create_peer_index-IsIndexed :
    (log : ℕ → List Message) (s : PeerStorage) (fuel : ℕ)
    → IsIndexed log s
    → ((j : ℕ) → length (log j) < fuel)
    → (t : PeerStorage) × (create_peer_index fuel (no_users s.file) ≡ ok t)
      × (t.message_index ≡ s.message_index)
unfolding create_peer_index
create_peer_index-IsIndexed log s fuel i b = (
  replayed log s.file (no_users s.file),
  scan_blocks-logged peer_step fuel log s.file (no_users s.file) i.logged b,
  i.index s.file,
)

-- A server that starts on an empty disk.
abbrev pub first_start : StorageFile
first_start = open_write_file 0 (record {
  files = λ n. none;
  block_no = 0;
  dirty = false;
  last_id = 0;
  last_saved_id = 0;
  sent = [];
})

first_start-IsIndexed : IsIndexed (λ j. []) (no_users first_start)
unfolding open_write_file update opened records replay_blocks replay get_peer_index next_message_id
first_start-IsIndexed = record {
  valid = record {
    header = omega (arith, length-write_header);
    bounded = omega (arith, length-write_header);
    newest = λ n h. ground arith;
  };
  logged = record {
    holds = λ n h. ground (arith, append-nil write_header);
    fits = λ n. tt;
    later = λ n h. refl;
  };
  index = λ f. refl;
  last = λ j. omega (arith, length-write_header);
  peer = λ j. omega (arith, length-write_header);
  batch = λ j. omega (arith, length-write_header);
}

-- From an empty disk `SavePeerMessage` succeeds on any list of messages below 32 KiB, whose
-- fields fit and that are no links themselves, under ids that fit their fields, as long as the
-- block numbers fit. If the server then loses the index of users, `createPeerIndex` reads the
-- block files to their end and rebuilds exactly the index that was kept.
pub create_peer_index-rebuilds :
    (saves : List Save) (fuel : ℕ)
    → FitSaves saves
    → 2 * length saves < 2 ^ 36
    → 2 * length saves < fuel
    → (s : PeerStorage) × (t : PeerStorage) × (save_peer_messages saves (no_users first_start)
        ≡ some s)
      × (create_peer_index fuel (no_users s.file) ≡ ok t)
      × (t.message_index ≡ s.message_index)
create_peer_index-rebuilds saves fuel f h g =
    let (s, log, e, i, b) =
      save_peer_messages-IsIndexed saves (λ j. []) (no_users first_start) first_start-IsIndexed f
        (unfold open_write_file in omega arith) in
    let (t, e', same) = create_peer_index-IsIndexed log s fuel i (λ j. omega (arith, b j)) in
    (s, t, e, e', same)
