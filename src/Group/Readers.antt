-- ===== src/Group/Readers.antt =====
-- Readers take the map of a group without its lock and keep it while the group changes.
use im_service_modify.Prelude.{
  ℕ, Bool, List, [], ◌∷◌, arith, refl, ◌∙◌, Option-cases, inl, inr, ◌≡◌, ◌<◌,
}
use im_service_modify.Maps.{lookup, lookup-insert}
use im_service_modify.Group.{
  remove, insert, Members, Group, Heap, Change, add, drop_out, set_mute, change, changes,
  members_of, is_member, get_member_timestamp, store_copy, with_mute, set_member_mute, add_member,
  remove_member,
}

-- The group's own map and a reader's map are both behind it.
abbrev pub IsAllocated : ℕ → Group × Heap → Type 0
IsAllocated r (g, h) = (r < h.fresh) × (g.members < h.fresh)

abbrev SameReader : Members → Members → Type 0
SameReader m m' =
    (uid : ℕ)
    → (is_member uid m' ≡ is_member uid m)
      × (get_member_timestamp uid m' ≡ get_member_timestamp uid m)

same-copy :
    (r : ℕ) (m : Members) (g : Group) (h : Heap)
    → IsAllocated r (g, h)
    → IsAllocated r (store_copy m g h) × ((store_copy m g h).1.maps r ≡ h.maps r)
unfolding store_copy
same-copy r m g h (a, b) = ((omega arith, omega arith), ground arith)

same-mute :
    (r uid : ℕ) (mute : Bool) (g : Group) (h : Heap) (j : ℕ)
    → (is_member j ((set_member_mute uid mute g h).1.maps r) ≡ is_member j (h.maps r))
      × (get_member_timestamp j ((set_member_mute uid mute g h).1.maps r)
          ≡ get_member_timestamp j (h.maps r))
unfolding set_member_mute is_member get_member_timestamp
same-mute r uid mute g h j = elim (Option-cases (lookup uid (members_of g h))) [
  | inl e ↦ (ground (arith, e), ground (arith, e))
  | inr (v, e) ↦ (
    ground (arith, e, lookup-insert uid j (with_mute mute v) (members_of g h)),
    ground (arith, e, lookup-insert uid j (with_mute mute v) (members_of g h)),
  )
]

change-reader :
    (c : Change) (r : ℕ) (g : Group) (h : Heap)
    → IsAllocated r (g, h)
    → IsAllocated r (change c (g, h)) × SameReader (h.maps r) ((change c (g, h)).1.maps r)
unfolding change add_member remove_member set_member_mute
change-reader (add uid t) r g h a =
    let (b, e) = same-copy r (insert uid t (members_of g h)) g h a in (b, λ j. rw e (refl, refl))
change-reader (drop_out uid) r g h a = elim (Option-cases (lookup uid (members_of g h))) [
  | inl e ↦ rw (e, remove_member) (a, λ j. (refl, refl))
  | inr (v, e) ↦
      let (b, e') = same-copy r (remove uid (members_of g h)) g h a in
      rw (e, remove_member) (b, λ j. rw e' (refl, refl))
]
change-reader (set_mute uid mute) r g h a = (
  elim (Option-cases (lookup uid (members_of g h))) [
    | inl e ↦ rw (e, set_member_mute) a
    | inr (v, e) ↦ rw (e, set_member_mute) a
  ],
  λ j. same-mute r uid mute g h j,
)

-- A reader that holds a map of members, of this group or an older one, sees the same members with
-- the same times of joining in it whatever calls of `AddMember`, `RemoveMember` and `SetMemberMute`
-- come after; only the mute flags may change under it.
pub changes-reader :
    (cs : List Change) (r : ℕ) (s : Group × Heap)
    → IsAllocated r s
    → (uid : ℕ)
    → (is_member uid ((changes cs s).1.maps r) ≡ is_member uid (s.1.maps r))
      × (get_member_timestamp uid ((changes cs s).1.maps r) ≡ get_member_timestamp uid (s.1.maps r))
unfolding changes
changes-reader [] r s a uid = (refl, refl)
changes-reader (c ∷ cs) r (g, h) a uid =
    let (b, e) = change-reader c r g h a in
    let (e1, e2) = changes-reader cs r (change c (g, h)) b uid in (e1 ∙ (e uid).0, e2 ∙ (e uid).1)
