-- ===== src/Tests/GroupRuns.antt =====
-- A group at concrete inputs.
use im_service_modify.Prelude.{◌≡◌, refl, true, List, [], ◌∷◌, arith}
use im_service_modify.Group.{
  store_copy, change, add_member, remove_member, set_member_mute, Group, Heap, Change, add,
  drop_out, set_mute, changes, members_of, new_group, is_member, get_member_timestamp,
  get_member_mute, is_empty,
}
use im_service_modify.Maps.{lookup, insert, remove}
use im_service_modify.Group.Laws.{changes-ideal, ideal_changes, member_view}
use im_service_modify.Group.Readers.{changes-reader}

abbrev one_map : Heap
one_map = record { maps = λ r. (5, 77) ∷ []; fresh = 1 }

abbrev of_five : Group × Heap
of_five = (new_group 9 7 0, one_map)

abbrev some_changes : List Change
some_changes = set_mute 5 true ∷ add 6 1000 ∷ set_mute 6 true ∷ drop_out 5 ∷ []

changes-ideal_example :
    member_view 6 (members_of (changes some_changes of_five).0 (changes some_changes of_five).1)
    ≡ ideal_changes some_changes (λ j. member_view j (members_of of_five.0 of_five.1)) 6
changes-ideal_example = changes-ideal some_changes of_five (tt, (omega arith, (tt, (tt, tt)))) 6

changes-reader_example :
    (is_member 5 ((changes some_changes of_five).1.maps 0) ≡ is_member 5 (of_five.1.maps 0))
    × (get_member_timestamp 5 ((changes some_changes of_five).1.maps 0)
        ≡ get_member_timestamp 5 (of_five.1.maps 0))
changes-reader_example = changes-reader some_changes 0 of_five (omega arith, omega arith) 5

nobody_left :
    is_empty
      (members_of (changes (drop_out 5 ∷ []) of_five).0 (changes (drop_out 5 ∷ []) of_five).1)
    ≡ true
unfolding changes change add_member remove_member set_member_mute store_copy lookup insert remove
    is_empty
nobody_left = refl

-- The reader of the first map sees that 5 is muted.
muted_in_place : get_member_mute 5 ((changes some_changes of_five).1.maps 0) ≡ true
unfolding changes change add_member remove_member set_member_mute store_copy lookup insert remove
    get_member_mute
muted_in_place = refl
