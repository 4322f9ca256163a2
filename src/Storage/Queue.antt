-- ===== src/Storage/Queue.antt =====
-- What the index promises: a user's queue as a list. `SavePeerMessage` puts the message in front of
-- the queues that it belongs to, and changes no other.
use im_service_modify.Prelude.{
  ℕ, ◌*◌, ◌^◌, ◌≤◌, ◌<◌, ◌≡◌, refl, Bool, true, false, List, [], ◌∷◌, if◌then◌else◌, arith,
}
use im_service_modify.Wire.{ok}
use im_service_modify.Message.Body.{Message}
use im_service_modify.Message.Creators.{creator, kind_of}
use im_service_modify.Message.Offline.{OfflineMessage, to_data_offline_message4}
use im_service_modify.Message.OfflineLaws.{FitsOfflineMessage}
use im_service_modify.Message.Frame.{to_data}
use im_service_modify.Message.Fits.{FitsMessage}
use im_service_modify.Wire.Laws.{wire_laws}
use im_service_modify.Storage.File.{StorageFile, load_message}
use im_service_modify.Storage.SaveLaws.{Saved}
use im_service_modify.Storage.Peer.{
  UserId, UserIndex, PeerStorage, message_flag_group, same_user, get_peer_index, set_peer_index,
  new_link, link_message,
}

abbrev pub Entry : Type 0
Entry = OfflineMessage × Message

-- From a link on, following one of its three pointers, stand these links and messages. Every
-- pointer goes back in the file, and the queue ends at id 0.
abbrev pub IsQueue : (OfflineMessage → ℕ) → StorageFile → ℕ → List Entry → Type 0
IsQueue next file id [] = id ≡ 0
IsQueue next file id ((off, m) ∷ rest) =
    (0 < id)
    × ((g : Bool) × (load_message id file ≡ ok (link_message g off)))
    × (load_message off.msgid file ≡ ok m)
    × (0 < off.msgid)
    × (next off < id)
    × IsQueue next file (next off) rest

-- A queue outlives every message that is saved later.
pub IsQueue-Saved :
    (next : OfflineMessage → ℕ) {m : Message} {file file' : StorageFile} {saved : ℕ} (id : ℕ)
    (q : List Entry)
    → Saved m file saved file'
    → IsQueue next file id q
    → IsQueue next file' id q
IsQueue-Saved next id [] s h = h
IsQueue-Saved next id ((off, m) ∷ rest) s (p, (g, e), e', z, lt, h) = (
  p,
  (g, s.keeps id (link_message g off) e),
  s.keeps off.msgid m e',
  z,
  lt,
  IsQueue-Saved next (next off) rest s h,
)

-- The index's high-water mark has no part in loading.
pub IsQueue-last_id :
    (next : OfflineMessage → ℕ) (file : StorageFile) (n id : ℕ) (q : List Entry)
    → IsQueue next file id q
    → IsQueue next (record file { last_id = n }) id q
unfolding load_message
IsQueue-last_id next file n id [] h = h
IsQueue-last_id next file n id ((off, m) ∷ rest) (p, (g, e), e', z, lt, h) =
    (p, (g, e), e', z, lt, IsQueue-last_id next file n (next off) rest h)

-- The values that a link holds are in range.
pub record FitsLink (id : UserId) (device_id : ℕ) (ui : UserIndex) (bound : ℕ) : Type 0 where
  pub appid : id.appid < 256 ^ 8
  pub uid : id.uid < 256 ^ 8
  pub device : device_id < 256 ^ 8
  pub last : ui.last_id < bound
  pub peer : ui.last_peer_id < bound
  pub batch : ui.last_batch_id < bound

pub new_link-Fits :
    (id : UserId) (device_id msgid : ℕ) (ui : UserIndex) (bound : ℕ)
    → FitsLink id device_id ui bound
    → bound ≤ 256 ^ 8
    → msgid < 256 ^ 8
    → FitsOfflineMessage (new_link id device_id msgid ui)
unfolding new_link
new_link-Fits id device_id msgid ui bound f h p = record {
  appid = f.appid;
  receiver = f.uid;
  msgid = p;
  device_id = f.device;
  seq_id = omega arith;
  prev_msgid = omega (arith, f.last);
  prev_peer_msgid = omega (arith, f.peer);
  prev_batch_msgid = omega (arith, f.batch);
}

pub link_message-Fits :
    (g : Bool) (off : OfflineMessage)
    → FitsOfflineMessage off
    → FitsMessage (32 * 1024) (link_message g off)
unfolding FitsMessage creator kind_of to_data to_data_offline_message4
link_message-Fits g off f =
    (omega arith, omega arith, omega arith, flag g, refl, simp wire_laws (omega arith), f)
  where
    flag : (b : Bool) → (if b then message_flag_group else 0) < 256
    flag true = omega arith
    flag false = omega arith

-- The user's own index entry is the one that was set, and the others stay.
pub get-set_peer_index :
    (id j : UserId) (ui : UserIndex) (s : PeerStorage)
    → get_peer_index j (set_peer_index id ui s)
      ≡ (if same_user j id then ui else get_peer_index j s)
unfolding get_peer_index set_peer_index
get-set_peer_index id j ui s = ground arith
