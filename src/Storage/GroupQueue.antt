-- ===== src/Storage/GroupQueue.antt =====
-- What the index of groups promises: the messages of a group as a list, newest first.
use im_service_modify.Prelude.{
  ℕ, ◌*◌, ◌^◌, ◌≤◌, ◌<◌, ◌≡◌, refl, Bool, true, false, not, ◌&&◌, ◌||◌, List, [], ◌∷◌, ◌==◌,
  if◌then◌else◌, arith, some, length,
}
use im_service_modify.Wire.{ok}
use im_service_modify.Wire.Laws.{wire_laws}
use im_service_modify.Message.Body.{Message, Body, cmd_of, body_of}
use im_service_modify.Message.Creators.{msg_group_im, creator, kind_of}
use im_service_modify.Message.Offline.{GroupOfflineMessage, to_data_group_offline_message}
use im_service_modify.Message.Frame.{to_data}
use im_service_modify.Message.Fits.{FitsMessage}
use im_service_modify.Storage.File.{StorageFile, load_message}
use im_service_modify.Storage.SaveLaws.{Saved}
use im_service_modify.Storage.PeerLoad.{EMessage, le_int64}
use im_service_modify.Storage.Group.{
  GroupId, GroupStorage, same_group, get_last_group_message_id, set_last_group_message_id,
  new_group_link, group_link_message, lt_int32,
}

abbrev pub GroupEntry : Type 0
GroupEntry = GroupOfflineMessage × Message

abbrev pub is_im : Body → Bool
is_im (Body.im_message im) = true
is_im _ = false

-- A message of a group's command has the body that the table of creators gives it.
abbrev pub has_im_body : Message → Bool
has_im_body m = not (cmd_of m == msg_group_im) || is_im (body_of m)

-- From a link on stand these links and messages. Every pointer goes back in the file.
abbrev pub IsGroupQueue : StorageFile → ℕ → List GroupEntry → Type 0
IsGroupQueue file id [] = id ≡ 0
IsGroupQueue file id ((off, m) ∷ rest) =
    (0 < id)
    × (id < 2 ^ 63)
    × (load_message id file ≡ ok (group_link_message off))
    × (load_message off.msgid file ≡ ok m)
    × (0 < off.msgid)
    × (has_im_body m ≡ true)
    × (off.prev_msgid < id)
    × IsGroupQueue file off.prev_msgid rest

-- A queue outlives every message that is saved later.
pub IsGroupQueue-Saved :
    {m : Message} {file file' : StorageFile} {saved : ℕ} (id : ℕ) (q : List GroupEntry)
    → Saved m file saved file'
    → IsGroupQueue file id q
    → IsGroupQueue file' id q
IsGroupQueue-Saved id [] s h = h
IsGroupQueue-Saved id ((off, m) ∷ rest) s (p, small, e, e', z, w, lt, h) = (
  p,
  small,
  s.keeps id (group_link_message off) e,
  s.keeps off.msgid m e',
  z,
  w,
  lt,
  IsGroupQueue-Saved off.prev_msgid rest s h,
)

-- The index's high-water mark has no part in loading.
pub IsGroupQueue-last_id :
    (file : StorageFile) (n id : ℕ) (q : List GroupEntry)
    → IsGroupQueue file id q
    → IsGroupQueue (record file { last_id = n }) id q
unfolding load_message
IsGroupQueue-last_id file n id [] h = h
IsGroupQueue-last_id file n id ((off, m) ∷ rest) (p, small, e, e', z, w, lt, h) =
    (p, small, e, e', z, w, lt, IsGroupQueue-last_id file n off.prev_msgid rest h)

pub length-group_queue-le :
    (file : StorageFile) (id : ℕ) (q : List GroupEntry) → IsGroupQueue file id q → length q ≤ id
length-group_queue-le file id [] h = omega arith
length-group_queue-le file id ((off, m) ∷ q) (p, small, e, e', z, w, lt, h) =
    omega (arith, length-group_queue-le file off.prev_msgid q h)

-- The values that a link holds are in range.
pub record FitsGroupLink (id : GroupId) (device_id last_id bound : ℕ) : Type 0 where
  pub appid : id.appid < 256 ^ 8
  pub gid : id.gid < 256 ^ 8
  pub device : device_id < 256 ^ 8
  pub last : last_id < bound

pub new_group_link-Fits :
    (id : GroupId) (device_id msgid last_id bound : ℕ)
    → FitsGroupLink id device_id last_id bound
    → bound ≤ 256 ^ 8
    → msgid < 256 ^ 8
    → FitsMessage (32 * 1024) (group_link_message (new_group_link id device_id msgid last_id))
unfolding new_group_link FitsMessage creator kind_of to_data to_data_group_offline_message
new_group_link-Fits id device_id msgid last_id bound f h p = (
  omega arith,
  omega arith,
  omega arith,
  omega arith,
  refl,
  simp wire_laws (omega arith),
  record {
    appid = f.appid;
    receiver = omega arith;
    msgid = p;
    gid = f.gid;
    device_id = f.device;
    prev_msgid = omega (arith, f.last);
  },
)

pub get-set_last_group_message_id :
    (id j : GroupId) (n : ℕ) (s : GroupStorage)
    → get_last_group_message_id j (set_last_group_message_id id n s)
      ≡ (if same_group j id then n else get_last_group_message_id j s)
unfolding get_last_group_message_id set_last_group_message_id
get-set_last_group_message_id id j n s = ground arith

abbrev pub im_time : Body → ℕ
im_time (Body.im_message im) = im.timestamp
im_time _ = 0

abbrev pub is_early : ℕ → Message → Bool
is_early ts m = cmd_of m == msg_group_im && lt_int32 (im_time (body_of m)) ts

-- Whether the loop goes past a message: the client has it, or it is from before the user joined.
abbrev pub is_new : ℕ → ℕ → GroupEntry → Bool
is_new msgid ts (off, m) = not (le_int64 off.msgid msgid) && not (msgid == 0 && is_early ts m)

-- The front of a queue up to the first message that the client has or that is from before joining.
unfoldable pub group_newer : ℕ → ℕ → List GroupEntry → List EMessage
group_newer msgid ts [] = []
group_newer msgid ts ((off, m) ∷ q) =
    let rest = group_newer msgid ts q in
    if is_new msgid ts (off, m)
    then record { msgid = off.msgid; device_id = off.device_id; msg = some m } ∷ rest
    else []

unfoldable pub newest_in_group : List GroupEntry → ℕ
newest_in_group [] = 0
newest_in_group ((off, m) ∷ q) = off.msgid
