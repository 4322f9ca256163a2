-- ===== src/Message/PendingLaws.antt =====
-- When a pending group message comes back as it was written, and when reading it panics.
use im_service_modify.Prelude.{
  ℕ, ◌+◌, ◌*◌, ◌^◌, ◌≤◌, ◌<◌, ◌≡◌, refl, List, [], ◌∷◌, ◌++◌, append_assoc, length, drop,
  length-append, drop-append, arith,
}
use im_service_modify.Wire.{ok, panics, Bytes, write}
use im_service_modify.Message.Pending.{
  from_data_pending_group_message, PendingGroupMessage, write_members, read_members,
  to_data_pending_group_message, members_end,
}
use im_service_modify.Wire.Laws.{wire_laws, length-write}

abbrev pub AllIds : List ℕ → Type 0
AllIds [] = Unit
AllIds (uid ∷ uids) = (uid < 256 ^ 8) × AllIds uids

pub record FitsPendingGroupMessage (m : PendingGroupMessage) : Type 0 where
  pub appid : m.appid < 256 ^ 8
  pub sender : m.sender < 256 ^ 8
  pub device_id : m.device_id < 256 ^ 8
  pub gid : m.gid < 256 ^ 8
  pub timestamp : m.timestamp < 256 ^ 4
  pub members : AllIds m.members

length-write_members : (uids : List ℕ) → length (write_members uids) ≡ length uids * 8
unfolding write_members
length-write_members [] = refl
length-write_members (uid ∷ uids) = omega (
  arith,
  length-append {0} (write 8 uid) (write_members uids),
  length-write 8 uid,
  length-write_members uids,
)

read_members-write_members :
    (uids : List ℕ) (rest : Bytes)
    → AllIds uids
    → read_members (length uids) (write_members uids ++ rest) ≡ (uids, rest)
unfolding read_members write_members
read_members-write_members [] rest h = refl
read_members-write_members (uid ∷ uids) rest (h, hs) =
    simp (append_assoc, wire_laws, h, read_members-write_members uids rest hs)

-- What stands before the content.
abbrev header : PendingGroupMessage → Bytes
header m =
    write 8 m.appid
    ++ (write 8 m.sender
        ++ (write 8 m.device_id
            ++ (write 8 m.gid
                ++ (write 4 m.timestamp
                    ++ (write 2 (length m.members) ++ write_members m.members)))))

to_data-header : (m : PendingGroupMessage) → to_data_pending_group_message m ≡ header m ++ m.content
unfolding to_data_pending_group_message
to_data-header m = simp append_assoc

length-header : (m : PendingGroupMessage) → length (header m) ≡ 38 + length m.members * 8
length-header m = simp (wire_laws, length-write_members) (omega arith)

drop-to_data :
    (m : PendingGroupMessage)
    → drop (38 + length m.members * 8) (to_data_pending_group_message m) ≡ m.content
drop-to_data m = rw (to_data-header m) (drop-append _ (header m) m.content (length-header m))

length-to_data :
    (m : PendingGroupMessage)
    → length (to_data_pending_group_message m) ≡ 38 + length m.members * 8 + length m.content
length-to_data m =
    rw (to_data-header m) (omega (arith, length-append {0} (header m) m.content, length-header m))

members_end_small : (n : ℕ) → n ≤ 4091 → members_end n ≡ 38 + n * 8
members_end_small n h = omega arith

-- A pending group message whose fields fit, for at most 4091 members, is decoded as it was
-- encoded.
pub from-to_data_pending_group_message :
    (m : PendingGroupMessage)
    → FitsPendingGroupMessage m
    → length m.members ≤ 4091
    → from_data_pending_group_message (to_data_pending_group_message m) ≡ ok m
unfolding from_data_pending_group_message to_data_pending_group_message
from-to_data_pending_group_message m f h =
    let c : length m.members < 256 ^ 2 = omega arith in
    let d = drop-to_data m in
    let e = members_end_small (length m.members) h in
    let r = read_members-write_members m.members m.content f.members in
    simp
      (
        wire_laws, f.appid, f.sender, f.device_id, f.gid, f.timestamp, c, e, d, r,
        length-write_members,
      )
      (ground arith)

-- The decoder panics on every encoded pending group message for 4092 to 8187 members, since the
-- end of the member list is computed in 16 bits and is negative.
pub from-to_data_pending_group_message_panics :
    (m : PendingGroupMessage)
    → FitsPendingGroupMessage m
    → 4092 ≤ length m.members
    → length m.members ≤ 8187
    → from_data_pending_group_message (to_data_pending_group_message m) ≡ panics
unfolding from_data_pending_group_message to_data_pending_group_message
from-to_data_pending_group_message_panics m f h h' =
    let c : length m.members < 256 ^ 2 = omega arith in
    simp (wire_laws, f.appid, f.sender, f.device_id, f.gid, f.timestamp, c, length-write_members)
      (ground arith)
