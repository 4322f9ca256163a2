-- ===== src/Message/Pending.antt =====
-- ServerIMS/model/storage_message.go: `PendingGroupMessage`, a group message with the members that
-- it must still be delivered to.
use im_service_modify.Prelude.{
  ℕ, zero, suc, ◌+◌, ◌*◌, ◌%◌, ◌^◌, not, ◌&&◌, List, [], ◌∷◌, ◌++◌, ltb, length, drop,
  if◌then◌else◌,
}
use im_service_modify.Wire.{Bytes, write, read, is_negative, Outcome, ok, refused, panics}

pub record PendingGroupMessage : Type 0 where
  pub appid : ℕ
  pub sender : ℕ
  pub device_id : ℕ
  pub gid : ℕ
  pub timestamp : ℕ
  pub members : List ℕ
  pub content : Bytes

-- The loop that writes the members.
unfoldable pub write_members : List ℕ → Bytes
write_members [] = []
write_members (uid ∷ uids) = write 8 uid ++ write_members uids

-- The loop that reads `count` members; each `uid` is a new variable.
unfoldable pub read_members : ℕ → Bytes → List ℕ × Bytes
read_members zero buffer = ([], buffer)
read_members (suc n) buffer =
    let (uid, b) = read 8 0 buffer in let (uids, rest) = read_members n b in (uid ∷ uids, rest)

unfoldable pub to_data_pending_group_message : PendingGroupMessage → Bytes
to_data_pending_group_message m =
    write 8 m.appid
    ++ (write 8 m.sender
        ++ (write 8 m.device_id
            ++ (write 8 m.gid
                ++ (write 4 m.timestamp
                    ++ (write 2 (length m.members) ++ (write_members m.members ++ m.content))))))

-- `38+count*8` is computed in `int16`.
abbrev pub members_end : ℕ → ℕ
members_end count = (38 + count * 8) % 256 ^ 2

-- `make` panics at a negative length, and a slice at a negative index.
unfoldable pub from_data_pending_group_message : Bytes → Outcome PendingGroupMessage
from_data_pending_group_message buff =
    if ltb (length buff) 38
    then refused
    else (let (appid, b1) = read 8 0 buff in
        let (sender, b2) = read 8 0 b1 in
        let (device_id, b3) = read 8 0 b2 in
        let (gid, b4) = read 8 0 b3 in
        let (timestamp, b5) = read 4 0 b4 in
        let (count, b6) = read 2 0 b5 in
        let offset = members_end count in
        if not (is_negative 2 offset) && ltb (length buff) offset
        then refused
        else if is_negative 2 count
        then panics
        else if is_negative 2 offset
        then panics
        else ok (record {
          appid = appid;
          sender = sender;
          device_id = device_id;
          gid = gid;
          timestamp = timestamp;
          members = (read_members count b6).0;
          content = drop offset buff;
        }))
