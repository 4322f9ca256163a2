-- ===== src/Group/Laws.antt =====
-- What a group promises: each member has a time of joining and a mute flag.
use im_service_modify.Prelude.{
  sym, ◌∙◌, ℕ, Bool, true, false, List, [], ◌∷◌, Option, none, some, ◌==◌, if◌then◌else◌, arith,
  refl, Option-cases, inl, inr, ◌≡◌, ◌^◌, ◌<◌, ◌%◌, ◌/◌,
}
use im_service_modify.Maps.{lookup, lookup-insert, lookup-remove}
use im_service_modify.Group.{
  with_mute, store_copy, set_member_mute, remove_member, add_member, Members, Group, Heap, Change,
  add, drop_out, set_mute, change, changes, members_of, is_member, get_member_timestamp,
  get_member_mute,
}

-- A member as a reader sees it.
abbrev pub member_view : ℕ → Members → Option (ℕ × Bool)
member_view uid m =
    if is_member uid m then some (get_member_timestamp uid m, get_member_mute uid m) else none

abbrev with_flag : Bool → Option (ℕ × Bool) → Option (ℕ × Bool)
with_flag mute none = none
with_flag mute (some (t, b)) = some (t, mute)

-- What a change does to the members.
abbrev pub ideal_change : Change → (ℕ → Option (ℕ × Bool)) → ℕ → Option (ℕ × Bool)
ideal_change (add uid t) v j = if j == uid then some (t, false) else v j
ideal_change (drop_out uid) v j = if j == uid then none else v j
ideal_change (set_mute uid mute) v j = if j == uid then with_flag mute (v j) else v j

abbrev pub ideal_changes : List Change → (ℕ → Option (ℕ × Bool)) → ℕ → Option (ℕ × Bool)
ideal_changes [] v = v
ideal_changes (c ∷ cs) v = ideal_changes cs (ideal_change c v)

-- A time of joining is a Unix time in 31 bits.
abbrev pub FitsChange : Change → Type 0
FitsChange (add uid t) = t < 2 ^ 31
FitsChange _ = Unit

abbrev pub FitsChanges : List Change → Type 0
FitsChanges [] = Unit
FitsChanges (c ∷ cs) = FitsChange c × FitsChanges cs

abbrev group_view : Group × Heap → ℕ → Option (ℕ × Bool)
group_view (group, h) uid = member_view uid (members_of group h)

-- The members behind a value's bits.
decode : Option ℕ → Option (ℕ × Bool)
decode none = none
decode (some v) = some (v % 2 ^ 31, v / 2 ^ 31 % 2 == 1)

view-decode : (uid : ℕ) (m : Members) → member_view uid m ≡ decode (lookup uid m)
unfolding decode is_member get_member_timestamp get_member_mute
view-decode uid m = elim (Option-cases (lookup uid m)) [
  | inl e ↦ rw e refl
  | inr (v, e) ↦ rw e refl
]

re_muted : Bool → Option ℕ → Option ℕ
re_muted mute none = none
re_muted mute (some v) = some (with_mute mute v)

-- What a change does to the value of a key.
value_change : Change → ℕ → Option ℕ → Option ℕ
value_change (add uid t) j o = if j == uid then some t else o
value_change (drop_out uid) j o = if j == uid then none else o
value_change (set_mute uid mute) j o = if j == uid then re_muted mute o else o

lookup-change :
    (c : Change) (g : Group) (h : Heap) (j : ℕ)
    → lookup j (members_of (change c (g, h)).0 (change c (g, h)).1)
      ≡ value_change c j (lookup j (members_of g h))
unfolding change add_member remove_member set_member_mute store_copy value_change re_muted
lookup-change (add uid t) g h j = ground (arith, lookup-insert uid j t (members_of g h))
lookup-change (drop_out uid) g h j = elim (Option-cases (lookup uid (members_of g h))) [
  | inl e ↦ ground (arith, e)
  | inr (v, e) ↦ ground (arith, e, lookup-remove uid j (members_of g h))
]
lookup-change (set_mute uid mute) g h j = elim (Option-cases (lookup uid (members_of g h))) [
  | inl e ↦ ground (arith, e)
  | inr (v, e) ↦ ground (arith, e, lookup-insert uid j (with_mute mute v) (members_of g h))
]

decode-value_change :
    (c : Change) (j : ℕ) (v : ℕ → Option (ℕ × Bool)) (o : Option ℕ)
    → FitsChange c
    → v j ≡ decode o
    → decode (value_change c j o) ≡ ideal_change c v j
unfolding decode value_change re_muted
decode-value_change (add uid t) j v o f e = ground arith
decode-value_change (drop_out uid) j v o f e = ground arith
decode-value_change (set_mute uid true) j v none f e = ground arith
decode-value_change (set_mute uid false) j v none f e = ground arith
decode-value_change (set_mute uid true) j v (some x) f e = ground arith
decode-value_change (set_mute uid false) j v (some x) f e = ground arith

change-view :
    (c : Change) (s : Group × Heap) (v : ℕ → Option (ℕ × Bool))
    → FitsChange c
    → ((j : ℕ) → group_view s j ≡ v j)
    → (j : ℕ) → group_view (change c s) j ≡ ideal_change c v j
change-view c (g, h) v f e j =
    view-decode j (members_of (change c (g, h)).0 (change c (g, h)).1)
    ∙ rw (lookup-change c g h j) (
        decode-value_change c j v (lookup j (members_of g h)) f
          (sym (e j) ∙ view-decode j (members_of g h)))

changes-view :
    (cs : List Change) (s : Group × Heap) (v : ℕ → Option (ℕ × Bool))
    → FitsChanges cs
    → ((j : ℕ) → group_view s j ≡ v j)
    → (j : ℕ) → group_view (changes cs s) j ≡ ideal_changes cs v j
unfolding changes
changes-view [] s v f e j = e j
changes-view (c ∷ cs) s v (f, fs) e j =
    changes-view cs (change c s) (ideal_change c v) fs (change-view c s v f e) j

-- After any calls of `AddMember`, with times of joining in 31 bits, `RemoveMember` and
-- `SetMemberMute`, the members, their times of joining and their mute flags are those of a map
-- from ids to pairs on which each call acts directly: the flag in bit 31 and the time below it
-- never mix.
pub changes-ideal :
    (cs : List Change) (s : Group × Heap)
    → FitsChanges cs
    → (uid : ℕ)
    → member_view uid (members_of (changes cs s).0 (changes cs s).1)
      ≡ ideal_changes cs (λ j. member_view j (members_of s.0 s.1)) uid
changes-ideal cs (g, h) f uid = changes-view cs (g, h) (group_view (g, h)) f (λ j. refl) uid
