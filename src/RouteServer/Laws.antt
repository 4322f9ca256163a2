-- ===== src/RouteServer/Laws.antt =====
-- What the route server promises about users and rooms.
use im_service_modify.Prelude.{
  ℕ, ◌≡◌, refl, ◌∙◌, sym, Bool, true, false, ◌||◌, List, [], ◌∷◌, Option, none, some, ◌==◌,
  if◌then◌else◌, arith,
}
use im_service_modify.Maps.{lookup, lookup-insert, lookup-remove}
use im_service_modify.RouteServer.{
  has_value, bool_or_false, IntSet, ServerRoute, Update, add_user, remove_user, add_room,
  remove_room, run, new_server_route, contains, add_int, remove_int, contain_user_id,
  is_user_online, add_user_id, remove_user_id, user_ids, get_user_ids, contain_room_id, add_room_id,
  remove_room_id,
}

pub contains-add :
    (v j : ℕ) (set : IntSet)
    → contains j (add_int v set) ≡ (if j == v then true else contains j set)
unfolding contains add_int
contains-add v j set = ground (arith, lookup-insert v j tt set)

pub contains-remove :
    (v j : ℕ) (set : IntSet)
    → contains j (remove_int v set) ≡ (if j == v then false else contains j set)
unfolding contains remove_int
contains-remove v j set = ground (arith, lookup-remove v j set)

contains-user_ids :
    (m : List (ℕ × Bool)) (j : ℕ) (set : IntSet)
    → contains j (user_ids m set) ≡ (has_value (lookup j m) || contains j set)
unfolding user_ids lookup
contains-user_ids [] j set = refl
contains-user_ids ((uid, b) ∷ m) j set =
    ground (arith, contains-user_ids m j (add_int uid set), contains-add uid j set)

-- The last update of a user and of a room decide.
unfoldable pub user_after : ℕ → List Update → Option Bool → Option Bool
user_after uid [] o = o
user_after uid (add_user u b ∷ us) o = user_after uid us (if uid == u then some b else o)
user_after uid (remove_user u ∷ us) o = user_after uid us (if uid == u then none else o)
user_after uid (add_room room_id ∷ us) o = user_after uid us o
user_after uid (remove_room room_id ∷ us) o = user_after uid us o

unfoldable pub room_after : ℕ → List Update → Bool → Bool
room_after room [] b = b
room_after room (add_user u online ∷ us) b = room_after room us b
room_after room (remove_user u ∷ us) b = room_after room us b
room_after room (add_room r ∷ us) b = room_after room us (if room == r then true else b)
room_after room (remove_room r ∷ us) b = room_after room us (if room == r then false else b)

run-user :
    (us : List Update) (r : ServerRoute) (uid : ℕ)
    → lookup uid (run us r).uids ≡ user_after uid us (lookup uid r.uids)
unfolding run user_after add_user_id remove_user_id add_room_id remove_room_id
run-user [] r uid = refl
run-user (add_user u b ∷ us) r uid =
    rw (sym (lookup-insert u uid b r.uids)) (run-user us (add_user_id u b r) uid)
run-user (remove_user u ∷ us) r uid =
    rw (sym (lookup-remove u uid r.uids)) (run-user us (remove_user_id u r) uid)
run-user (add_room x ∷ us) r uid = run-user us (add_room_id x r) uid
run-user (remove_room x ∷ us) r uid = run-user us (remove_room_id x r) uid

run-room :
    (us : List Update) (r : ServerRoute) (room : ℕ)
    → contains room (run us r).room_ids ≡ room_after room us (contains room r.room_ids)
unfolding run room_after add_user_id remove_user_id add_room_id remove_room_id
run-room [] r room = refl
run-room (add_user u b ∷ us) r room = run-room us (add_user_id u b r) room
run-room (remove_user u ∷ us) r room = run-room us (remove_user_id u r) room
run-room (add_room x ∷ us) r room =
    rw (sym (contains-add x room r.room_ids)) (run-room us (add_room_id x r) room)
run-room (remove_room x ∷ us) r room =
    rw (sym (contains-remove x room r.room_ids)) (run-room us (remove_room_id x r) room)

nobody : (key : ℕ) (us : List Update) → user_after key us (lookup key []) ≡ user_after key us none
unfolding lookup
nobody key us = refl

no_room :
    (key : ℕ) (us : List Update) → room_after key us (contains key []) ≡ room_after key us false
unfolding lookup contains
no_room key us = refl

nothing_more : (b : Bool) (key : ℕ) → (b || contains key []) ≡ b
unfolding lookup contains
nothing_more true key = refl
nothing_more false key = refl

-- On a new route of the route server and after any updates, `IsUserOnline`, `ContainUserID` and
-- `GetUserIDs` answer by the user's last update: with its online flag, and whether it was
-- `AddUserID`. `ContainRoomID` answers by the room's last update.
pub run-answers :
    (us : List Update) (appid key : ℕ)
    → (is_user_online key (run us (new_server_route appid))
        ≡ bool_or_false (user_after key us none))
      × (contain_user_id key (run us (new_server_route appid)) ≡ has_value (user_after key us none))
      × (contains key (get_user_ids (run us (new_server_route appid)))
          ≡ has_value (user_after key us none))
      × (contain_room_id key (run us (new_server_route appid)) ≡ room_after key us false)
unfolding is_user_online contain_user_id get_user_ids contain_room_id
run-answers us appid key =
    let r = run us (new_server_route appid) in
    let u : lookup key r.uids ≡ user_after key us none =
      run-user us (new_server_route appid) key ∙ nobody key us in
    (
      rw u refl,
      rw u refl,
      contains-user_ids r.uids key []
          ∙ rw u (nothing_more (has_value (user_after key us none)) key),
      run-room us (new_server_route appid) key ∙ no_room key us,
    )
