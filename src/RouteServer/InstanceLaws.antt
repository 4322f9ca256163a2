-- ===== src/RouteServer/InstanceLaws.antt =====
-- How the handlers of the route server change what it knows of an instance.
use im_service_modify.RouteServer.Known.{
  user, group_room, unsubscribe_room_change, subscribe_room_change, unsubscribe_change,
  subscribe_change, changed, change_of, Key, known,
}
use im_service_modify.Wire.{ok, Outcome}
use im_service_modify.RouteServer.Laws.{contains-remove, contains-add}
use im_service_modify.Message.Creators.{
  msg_unsubscribe_room, msg_subscribe_room, msg_unsubscribe, msg_subscribe,
}
use im_service_modify.Message.Body.{body_of, cmd_of, Message, Body}
use im_service_modify.RouteServer.{
  remove_room_id, add_room_id, remove_user_id, add_user_id, contains, ServerRoute,
}
use im_service_modify.Prelude.{
  Bool-cases, ℕ, ◌≡◌, refl, Bool, true, not, ◌&&◌, Option, none, some, ◌==◌, if◌then◌else◌, arith,
  Option-cases, inl, inr,
}
use im_service_modify.Maps.{lookup, lookup-insert, lookup-remove}
use im_service_modify.RouteServer.Instance.{
  handle_route_message, handle_unsubscribe_room, handle_subscribe_room, handle_unsubscribe,
  handle_subscribe, find_or_add_route, change_route, AppRoute,
}

-- Changing an app's route changes what is known of the app only.
lookup-change_route :
    (appid a : ℕ) (f : ServerRoute → ServerRoute) (apps : AppRoute)
    → lookup a (change_route appid f apps)
      ≡ (if a == appid then some (f (find_or_add_route appid apps)) else lookup a apps)
unfolding change_route
lookup-change_route appid a f apps = lookup-insert appid a (f (find_or_add_route appid apps)) apps

known_user-change_route :
    (appid a u : ℕ) (f : ServerRoute → ServerRoute) (apps : AppRoute)
    → known (user a u) (change_route appid f apps) ≡ (
        if a == appid
        then lookup u (f (find_or_add_route appid apps)).uids
        else known (user a u) apps)
unfolding known
known_user-change_route appid a u f apps = ground (arith, lookup-change_route appid a f apps)

known_room-change_route :
    (appid a room_id : ℕ) (f : ServerRoute → ServerRoute) (apps : AppRoute)
    → known (group_room a room_id) (change_route appid f apps) ≡ (
        if a == appid
        then if contains room_id (f (find_or_add_route appid apps)).room_ids
          then some true
          else none
        else known (group_room a room_id) apps)
unfolding known
known_room-change_route appid a room_id f apps = ground (arith, lookup-change_route appid a f apps)

known-find_or_add_user :
    (appid u : ℕ) (apps : AppRoute)
    → lookup u (find_or_add_route appid apps).uids ≡ known (user appid u) apps
unfolding known find_or_add_route lookup
known-find_or_add_user appid u apps = elim (Option-cases (lookup appid apps)) [
  | inl n ↦ rw n refl
  | inr (r, n) ↦ rw n refl
]

known-find_or_add_room :
    (appid room_id : ℕ) (apps : AppRoute)
    → (if contains room_id (find_or_add_route appid apps).room_ids then some true else none)
      ≡ known (group_room appid room_id) apps
unfolding known find_or_add_route contains lookup
known-find_or_add_room appid room_id apps = elim (Option-cases (lookup appid apps)) [
  | inl n ↦ rw n refl
  | inr (r, n) ↦ rw n refl
]

-- The four changes of a route, at a user and at a room.
known-add_user :
    (appid a u uid : ℕ) (online : Bool) (apps : AppRoute)
    → known (user a u) (change_route appid (add_user_id uid online) apps)
      ≡ (if a == appid && u == uid then some online else known (user a u) apps)
unfolding add_user_id
known-add_user appid a u uid online apps = grind (
  arith,
  known_user-change_route appid a u (add_user_id uid online) apps,
  lookup-insert uid u online (find_or_add_route appid apps).uids,
  known-find_or_add_user appid u apps,
)

known-remove_user :
    (appid a u uid : ℕ) (apps : AppRoute)
    → known (user a u) (change_route appid (remove_user_id uid) apps)
      ≡ (if a == appid && u == uid then none else known (user a u) apps)
unfolding remove_user_id
known-remove_user appid a u uid apps = grind (
  arith,
  known_user-change_route appid a u (remove_user_id uid) apps,
  lookup-remove uid u (find_or_add_route appid apps).uids,
  known-find_or_add_user appid u apps,
)

known-add_room :
    (appid a j room_id : ℕ) (apps : AppRoute)
    → known (group_room a j) (change_route appid (add_room_id room_id) apps)
      ≡ (if a == appid && j == room_id then some true else known (group_room a j) apps)
unfolding add_room_id
known-add_room appid a j room_id apps = grind (
  arith,
  known_room-change_route appid a j (add_room_id room_id) apps,
  contains-add room_id j (find_or_add_route appid apps).room_ids,
  known-find_or_add_room appid j apps,
)

known-remove_room :
    (appid a j room_id : ℕ) (apps : AppRoute)
    → known (group_room a j) (change_route appid (remove_room_id room_id) apps)
      ≡ (if a == appid && j == room_id then none else known (group_room a j) apps)
unfolding remove_room_id
known-remove_room appid a j room_id apps = grind (
  arith,
  known_room-change_route appid a j (remove_room_id room_id) apps,
  contains-remove room_id j (find_or_add_route appid apps).room_ids,
  known-find_or_add_room appid j apps,
)

known_room-user_change :
    (appid a j : ℕ) (f : ServerRoute → ServerRoute) (apps : AppRoute)
    → ((r : ServerRoute) → (f r).room_ids ≡ r.room_ids)
    → known (group_room a j) (change_route appid f apps) ≡ known (group_room a j) apps
known_room-user_change appid a j f apps h = grind (
  arith,
  known_room-change_route appid a j f apps,
  h (find_or_add_route appid apps),
  known-find_or_add_room appid j apps,
)

known_user-room_change :
    (appid a u : ℕ) (f : ServerRoute → ServerRoute) (apps : AppRoute)
    → ((r : ServerRoute) → (f r).uids ≡ r.uids)
    → known (user a u) (change_route appid f apps) ≡ known (user a u) apps
known_user-room_change appid a u f apps h = grind (
  arith,
  known_user-change_route appid a u f apps,
  h (find_or_add_route appid apps),
  known-find_or_add_user appid u apps,
)

-- What a handler's result knows.
abbrev pub OutcomeKnows : Key → Option Bool → Outcome AppRoute → Type 0
OutcomeKnows key o (ok apps) = known key apps ≡ o
OutcomeKnows key o _ = Unit

handle_subscribe-known :
    (b : Body) (apps : AppRoute) (key : Key)
    → OutcomeKnows key (changed (subscribe_change b key) (known key apps)) (handle_subscribe b apps)
unfolding handle_subscribe add_user_id
handle_subscribe-known (Body.subscribe_message id) apps (user a u) =
    grind (arith, known-add_user id.appid a u id.uid (not (id.online == 0)) apps)
handle_subscribe-known (Body.subscribe_message id) apps (group_room a j) =
    known_room-user_change id.appid a j (add_user_id id.uid (not (id.online == 0))) apps (λ r. refl)
handle_subscribe-known _ apps key = tt

handle_unsubscribe-known :
    (b : Body) (apps : AppRoute) (key : Key)
    → OutcomeKnows key
        (changed (unsubscribe_change b key) (known key apps))
        (handle_unsubscribe b apps)
unfolding handle_unsubscribe remove_user_id
handle_unsubscribe-known (Body.app_user_id id) apps (user a u) =
    grind (arith, known-remove_user id.appid a u id.uid apps)
handle_unsubscribe-known (Body.app_user_id id) apps (group_room a j) =
    known_room-user_change id.appid a j (remove_user_id id.uid) apps (λ r. refl)
handle_unsubscribe-known _ apps key = tt

handle_subscribe_room-known :
    (b : Body) (apps : AppRoute) (key : Key)
    → OutcomeKnows key
        (changed (subscribe_room_change b key) (known key apps))
        (handle_subscribe_room b apps)
unfolding handle_subscribe_room add_room_id
handle_subscribe_room-known (Body.app_room_id id) apps (group_room a j) =
    grind (arith, known-add_room id.appid a j id.room_id apps)
handle_subscribe_room-known (Body.app_room_id id) apps (user a u) =
    known_user-room_change id.appid a u (add_room_id id.room_id) apps (λ r. refl)
handle_subscribe_room-known _ apps key = tt

handle_unsubscribe_room-known :
    (b : Body) (apps : AppRoute) (key : Key)
    → OutcomeKnows key
        (changed (unsubscribe_room_change b key) (known key apps))
        (handle_unsubscribe_room b apps)
unfolding handle_unsubscribe_room remove_room_id
handle_unsubscribe_room-known (Body.app_room_id id) apps (group_room a j) =
    grind (arith, known-remove_room id.appid a j id.room_id apps)
handle_unsubscribe_room-known (Body.app_room_id id) apps (user a u) =
    known_user-room_change id.appid a u (remove_room_id id.room_id) apps (λ r. refl)
handle_unsubscribe_room-known _ apps key = tt

-- When the route server takes a message of an instance, what it knows of every user and every room
-- of the instance, in every app, is what the message sets it to, if it is about that user or
-- room, and is as before otherwise. A message whose body is of another type than its command
-- wants, on which the handler panics, is not spoken of.
pub handle_route_message-known :
    (m : Message) (apps : AppRoute) (key : Key)
    → OutcomeKnows key (changed (change_of m key) (known key apps)) (handle_route_message m apps)
unfolding handle_route_message change_of
handle_route_message-known m apps key = elim (Bool-cases (cmd_of m == msg_subscribe)) [
  | inl s ↦ rw s (handle_subscribe-known (body_of m) apps key)
  | inr s ↦ elim (Bool-cases (cmd_of m == msg_unsubscribe)) [
    | inl u ↦ rw (s, u) (handle_unsubscribe-known (body_of m) apps key)
    | inr u ↦ elim (Bool-cases (cmd_of m == msg_subscribe_room)) [
      | inl r ↦ rw (s, u, r) (handle_subscribe_room-known (body_of m) apps key)
      | inr r ↦ elim (Bool-cases (cmd_of m == msg_unsubscribe_room)) [
        | inl x ↦ rw (s, u, r, x) (handle_unsubscribe_room-known (body_of m) apps key)
        | inr x ↦ rw (s, u, r, x) refl
      ]
    ]
  ]
]
