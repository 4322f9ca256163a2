-- ===== src/Group.antt =====
-- serverCommon/model/group.go: the members of a group. `AddMember` and `RemoveMember` work on a
-- copy of the map, `SetMemberMute` on the map that readers may hold, so the maps stand in a
-- heap and a group names one. A member's value is its time of joining, in 31 bits, and the mute
-- flag above it.
use im_service_modify.Prelude.{
  ℕ, Bool, true, false, List, [], ◌∷◌, Option, none, some, ◌==◌, if◌then◌else◌, length, ◌+◌, ◌%◌,
  ◌/◌, ◌^◌,
}
use im_service_modify.Maps.{lookup, insert, remove}
pub mod Laws
pub mod Readers

abbrev pub Members : Type 0
Members = List (ℕ × ℕ)

pub record Heap : Type 0 where
  pub maps : ℕ → Members
  pub fresh : ℕ

pub record Group : Type 0 where
  pub gid : ℕ
  pub appid : ℕ
  pub super : Bool
  pub members : ℕ

abbrev pub new_group : ℕ → ℕ → ℕ → Group
new_group gid appid members = record { gid = gid; appid = appid; super = false; members = members }

abbrev pub new_super_group : ℕ → ℕ → ℕ → Group
new_super_group gid appid members = record {
  gid = gid;
  appid = appid;
  super = true;
  members = members;
}

abbrev pub members_of : Group → Heap → Members
members_of group h = h.maps group.members

-- A map with new contents, behind all others: `cloneMembers` and the change of the copy.
unfoldable pub store_copy : Members → Group → Heap → Group × Heap
store_copy members group h = (
  record group { members = h.fresh },
  record { maps = λ r. if r == h.fresh then members else h.maps r; fresh = h.fresh + 1 },
)

unfoldable pub add_member : ℕ → ℕ → Group → Heap → Group × Heap
add_member uid timestamp group h = store_copy (insert uid timestamp (members_of group h)) group h

unfoldable pub remove_member : ℕ → Group → Heap → Group × Heap
remove_member uid group h = elim (lookup uid (members_of group h)) [
  | none ↦ (group, h)
  | some v ↦ store_copy (remove uid (members_of group h)) group h
]

-- `(val & 0x7FFFFFFF) | (m << 31)`
abbrev pub with_mute : Bool → ℕ → ℕ
with_mute mute val = val % 2 ^ 31 + (if mute then 2 ^ 31 else 0)

unfoldable pub set_member_mute : ℕ → Bool → Group → Heap → Group × Heap
set_member_mute uid mute group h = elim (lookup uid (members_of group h)) [
  | none ↦ (group, h)
  | some val ↦ (
    group,
    record h {
      maps = λ r.
          if r == group.members
          then insert uid (with_mute mute val) (members_of group h)
          else h.maps r;
    },
  )
]

-- The value under a key, 0 without one.
abbrev value_or_zero : Option ℕ → ℕ
value_or_zero none = 0
value_or_zero (some v) = v

abbrev present : Option ℕ → Bool
present none = false
present (some v) = true

-- What a reader of a map sees of a member.
unfoldable pub is_member : ℕ → Members → Bool
is_member uid m = present (lookup uid m)

unfoldable pub get_member_timestamp : ℕ → Members → ℕ
get_member_timestamp uid m = value_or_zero (lookup uid m) % 2 ^ 31

unfoldable pub get_member_mute : ℕ → Members → Bool
get_member_mute uid m = value_or_zero (lookup uid m) / 2 ^ 31 % 2 == 1

unfoldable pub is_empty : Members → Bool
is_empty m = length m == 0

-- The calls that change a group.
pub data Change : Type 0 where
  add : ℕ → ℕ → Change
  drop_out : ℕ → Change
  set_mute : ℕ → Bool → Change

unfoldable pub change : Change → Group × Heap → Group × Heap
change (add uid timestamp) (group, h) = add_member uid timestamp group h
change (drop_out uid) (group, h) = remove_member uid group h
change (set_mute uid mute) (group, h) = set_member_mute uid mute group h

unfoldable pub changes : List Change → Group × Heap → Group × Heap
changes [] s = s
changes (c ∷ cs) s = changes cs (change c s)
