-- ===== src/RouteServer/Known.antt =====
-- What the route server knows of an instance, user by user and room by room, and how each message
-- changes it.
use im_service_modify.Message.Creators.{
  msg_unsubscribe_room, msg_subscribe_room, msg_unsubscribe, msg_subscribe,
}
use im_service_modify.Maps.{lookup}
use im_service_modify.RouteServer.{contains, ServerRoute}
use im_service_modify.Message.Body.{body_of, cmd_of, Message, Body}
use im_service_modify.RouteServer.Instance.{AppRoute}
use im_service_modify.Prelude.{
  not, ◌&&◌, true, refl, ◌==◌, [], if◌then◌else◌, none, ◌∙◌, Option-cases, inr, some, ◌∷◌, inl, ◌⊎◌,
  ◌≡◌, ◌++◌, Bool, List, Option, ℕ,
}

-- A user or a room of an app.
pub data Key : Type 0 where
  user : ℕ → ℕ → Key
  group_room : ℕ → ℕ → Key

-- `none` if it is not subscribed, else whether it is online; a room is always online.
abbrev key_in_route : ℕ → Option ServerRoute → Option Bool
key_in_route uid none = none
key_in_route uid (some r) = lookup uid r.uids

abbrev room_in_route : ℕ → Option ServerRoute → Option Bool
room_in_route room_id none = none
room_in_route room_id (some r) = if contains room_id r.room_ids then some true else none

unfoldable pub known : Key → AppRoute → Option Bool
known (user appid uid) apps = key_in_route uid (lookup appid apps)
known (group_room appid room_id) apps = room_in_route room_id (lookup appid apps)

-- What a message sets a key to, if it is about the key.
abbrev pub subscribe_change : Body → Key → Option (Option Bool)
subscribe_change (Body.subscribe_message id) (user appid uid) =
    if appid == id.appid && uid == id.uid then some (some (not (id.online == 0))) else none
subscribe_change _ _ = none

abbrev pub unsubscribe_change : Body → Key → Option (Option Bool)
unsubscribe_change (Body.app_user_id id) (user appid uid) =
    if appid == id.appid && uid == id.uid then some none else none
unsubscribe_change _ _ = none

abbrev pub subscribe_room_change : Body → Key → Option (Option Bool)
subscribe_room_change (Body.app_room_id id) (group_room appid room_id) =
    if appid == id.appid && room_id == id.room_id then some (some true) else none
subscribe_room_change _ _ = none

abbrev pub unsubscribe_room_change : Body → Key → Option (Option Bool)
unsubscribe_room_change (Body.app_room_id id) (group_room appid room_id) =
    if appid == id.appid && room_id == id.room_id then some none else none
unsubscribe_room_change _ _ = none

unfoldable pub change_of : Message → Key → Option (Option Bool)
change_of m key =
    if cmd_of m == msg_subscribe
    then subscribe_change (body_of m) key
    else if cmd_of m == msg_unsubscribe
    then unsubscribe_change (body_of m) key
    else if cmd_of m == msg_subscribe_room
    then subscribe_room_change (body_of m) key
    else if cmd_of m == msg_unsubscribe_room
    then unsubscribe_room_change (body_of m) key
    else none

abbrev pub changed : Option (Option Bool) → Option Bool → Option Bool
changed none old = old
changed (some new) old = new

-- What a list of messages makes of it.
unfoldable pub after : List Message → Key → Option Bool → Option Bool
after [] key old = old
after (m ∷ ms) key old = after ms key (changed (change_of m key) old)

pub after-append :
    (ms ns : List Message) (key : Key) (old : Option Bool)
    → after (ms ++ ns) key old ≡ after ns key (after ms key old)
unfolding after
after-append [] ns key old = refl
after-append (m ∷ ms) ns key old = after-append ms ns key (changed (change_of m key) old)

-- A list says nothing about a key, or its last message about the key decides.
pub after-cases :
    (ms : List Message) (key : Key)
    → ((old : Option Bool) → after ms key old ≡ old)
      ⊎ ((new : Option Bool) × ((old : Option Bool) → after ms key old ≡ new))
unfolding after
after-cases [] key = inl (λ old. refl)
after-cases (m ∷ ms) key = elim (after-cases ms key) [
  | inr (new, h) ↦ inr (new, λ old. h (changed (change_of m key) old))
  | inl h ↦ elim (Option-cases (change_of m key)) [
    | inl n ↦ inl (λ old. h (changed (change_of m key) old) ∙ rw n refl)
    | inr (new, n) ↦ inr (new, λ old. h (changed (change_of m key) old) ∙ rw n refl)
  ]
]
