-- ===== src/Channel/View.antt =====
-- The counts of a channel's users and rooms, what the channel makes of them, and how its operations
-- change them.
use im_service_modify.Channel.Counts.{online_count, total_count}
use im_service_modify.Maps.{lookup-insert, insert, lookup}
use im_service_modify.Channel.{
  remove_connection, add_connection, remove_room_count, number_or_zero, set_subscriber, Subscriber,
  remove_subscribe_room, add_subscribe_room, remove_subscribe, add_subscribe,
  find_or_add_subscriber, Channel,
}
use im_service_modify.Prelude.{
  ◌==◌, if◌then◌else◌, inr, inl, refl, ◌^◌, sym, ◌%◌, ◌+◌, ◌<◌, true, ltb, none, arith,
  Option-cases, some, List, ◌≡◌, Bool, Option, ℕ,
}
use im_service_modify.RouteServer.Known.{Key, user, group_room}

abbrev user_in : ℕ → Option Subscriber → Option ℕ
user_in uid none = none
user_in uid (some s) = lookup uid s.uids

abbrev room_in : ℕ → Option Subscriber → Option ℕ
room_in room_id none = none
room_in room_id (some s) = lookup room_id s.room_ids

unfoldable pub user_count : ℕ → ℕ → Channel → Option ℕ
user_count appid uid c = user_in uid (lookup appid c.subscribers)

unfoldable pub room_count : ℕ → ℕ → Channel → Option ℕ
room_count appid room_id c = room_in room_id (lookup appid c.subscribers)

abbrev pub user_view : Option ℕ → Option Bool
user_view none = none
user_view (some count) = some (ltb 0 (online_count count))

abbrev pub room_view : Option ℕ → Option Bool
room_view none = none
room_view (some count) = some true

-- What the route server has to know: which users are connected and whether one of their connections
-- is online, and which rooms have a connection.
unfoldable pub view : Key → Channel → Option Bool
view (user appid uid) c = user_view (user_count appid uid c)
view (group_room appid room_id) c = room_view (room_count appid room_id c)

-- No count that is kept is zero.
pub record IsCounted (c : Channel) : Type 0 where
  pub users : (a u n : ℕ) → user_count a u c ≡ some n → 0 < total_count n
  pub rooms : (a j n : ℕ) → room_count a j c ≡ some n → 0 < n

pub user_count-set_subscriber :
    (appid a u : ℕ) (s : Subscriber) (c : Channel)
    → user_count a u (set_subscriber appid s c)
      ≡ (if a == appid then lookup u s.uids else user_count a u c)
unfolding user_count
user_count-set_subscriber appid a u s c = ground (arith, lookup-insert appid a s c.subscribers)

pub room_count-set_subscriber :
    (appid a j : ℕ) (s : Subscriber) (c : Channel)
    → room_count a j (set_subscriber appid s c)
      ≡ (if a == appid then lookup j s.room_ids else room_count a j c)
unfolding room_count
room_count-set_subscriber appid a j s c = ground (arith, lookup-insert appid a s c.subscribers)

pub lookup-find_or_add_user :
    (appid u : ℕ) (c : Channel)
    → lookup u (find_or_add_subscriber appid c).uids ≡ user_count appid u c
unfolding user_count find_or_add_subscriber lookup
lookup-find_or_add_user appid u c = elim (Option-cases (lookup appid c.subscribers)) [
  | inl n ↦ rw n refl
  | inr (s, n) ↦ rw n refl
]

pub lookup-find_or_add_room :
    (appid j : ℕ) (c : Channel)
    → lookup j (find_or_add_subscriber appid c).room_ids ≡ room_count appid j c
unfolding room_count find_or_add_subscriber lookup
lookup-find_or_add_room appid j c = elim (Option-cases (lookup appid c.subscribers)) [
  | inl n ↦ rw n refl
  | inr (s, n) ↦ rw n refl
]

-- Setting one user's count, or one room's.
unfoldable pub set_users : ℕ → List (ℕ × ℕ) → Channel → Channel
set_users appid uids c =
    set_subscriber appid (record (find_or_add_subscriber appid c) { uids = uids }) c

unfoldable pub set_rooms : ℕ → List (ℕ × ℕ) → Channel → Channel
set_rooms appid room_ids c =
    set_subscriber appid (record (find_or_add_subscriber appid c) { room_ids = room_ids }) c

pub user_count-set_users :
    (appid a u : ℕ) (uids : List (ℕ × ℕ)) (c : Channel)
    → user_count a u (set_users appid uids c)
      ≡ (if a == appid then lookup u uids else user_count a u c)
unfolding set_users
user_count-set_users appid a u uids c =
    user_count-set_subscriber appid a u (record (find_or_add_subscriber appid c) { uids = uids }) c

pub room_count-set_users :
    (appid a j : ℕ) (uids : List (ℕ × ℕ)) (c : Channel)
    → room_count a j (set_users appid uids c) ≡ room_count a j c
unfolding set_users
room_count-set_users appid a j uids c = grind (
  arith,
  room_count-set_subscriber appid a j (record (find_or_add_subscriber appid c) { uids = uids }) c,
  lookup-find_or_add_room appid j c,
)

pub room_count-set_rooms :
    (appid a j : ℕ) (room_ids : List (ℕ × ℕ)) (c : Channel)
    → room_count a j (set_rooms appid room_ids c)
      ≡ (if a == appid then lookup j room_ids else room_count a j c)
unfolding set_rooms
room_count-set_rooms appid a j room_ids c =
    room_count-set_subscriber appid a j
      (record (find_or_add_subscriber appid c) { room_ids = room_ids }) c

pub user_count-set_rooms :
    (appid a u : ℕ) (room_ids : List (ℕ × ℕ)) (c : Channel)
    → user_count a u (set_rooms appid room_ids c) ≡ user_count a u c
unfolding set_rooms
user_count-set_rooms appid a u room_ids c = grind (
  arith,
  user_count-set_subscriber appid a u
      (record (find_or_add_subscriber appid c) { room_ids = room_ids }) c,
  lookup-find_or_add_user appid u c,
)

-- What the four operations on counts return, and the change they make.
pub add_subscribe_lem :
    (appid uid : ℕ) (online : Bool) (c : Channel)
    → add_subscribe appid uid online c ≡ (
        let count = number_or_zero (user_count appid uid c) in
        (
          total_count count,
          online_count count,
          set_users appid (add_connection uid online count (find_or_add_subscriber appid c).uids) c,
        ))
unfolding add_subscribe set_users
add_subscribe_lem appid uid online c = rw (sym (lookup-find_or_add_user appid uid c)) refl

pub remove_subscribe-absent :
    (appid uid : ℕ) (online : Bool) (c : Channel)
    → user_count appid uid c ≡ none
    → remove_subscribe appid uid online c ≡ (0, 0, c)
unfolding remove_subscribe user_count
remove_subscribe-absent appid uid online c h = elim (Option-cases (lookup appid c.subscribers)) [
  | inl n ↦ rw n refl
  | inr (s, n) ↦ ground (arith, n, h)
]

pub remove_subscribe-present :
    (appid uid count : ℕ) (online : Bool) (c : Channel)
    → user_count appid uid c ≡ some count
    → remove_subscribe appid uid online c ≡ (
      total_count count,
      online_count count,
      set_users appid (remove_connection uid online count (find_or_add_subscriber appid c).uids) c,
    )
unfolding remove_subscribe user_count set_users find_or_add_subscriber
remove_subscribe-present appid uid count online c h =
    elim (Option-cases (lookup appid c.subscribers)) [
      | inl n ↦ absurd (ground (arith, n, h))
      | inr (s, n) ↦ ground (arith, n, h)
    ]

pub add_subscribe_room_lem :
    (appid room_id : ℕ) (c : Channel)
    → add_subscribe_room appid room_id c ≡ (
        let count = number_or_zero (room_count appid room_id c) in
        (
          count,
          set_rooms appid
              (insert room_id ((count + 1) % 2 ^ 64) (find_or_add_subscriber appid c).room_ids)
              c,
        ))
unfolding add_subscribe_room set_rooms
add_subscribe_room_lem appid room_id c = rw (sym (lookup-find_or_add_room appid room_id c)) refl

pub remove_subscribe_room-absent :
    (appid room_id : ℕ) (c : Channel)
    → room_count appid room_id c ≡ none
    → remove_subscribe_room appid room_id c ≡ (0, c)
unfolding remove_subscribe_room room_count
remove_subscribe_room-absent appid room_id c h = elim (Option-cases (lookup appid c.subscribers)) [
  | inl n ↦ rw n refl
  | inr (s, n) ↦ ground (arith, n, h)
]

pub remove_subscribe_room-present :
    (appid room_id count : ℕ) (c : Channel)
    → room_count appid room_id c ≡ some count
    → remove_subscribe_room appid room_id c ≡ (
      count,
      set_rooms appid (remove_room_count room_id count (find_or_add_subscriber appid c).room_ids) c,
    )
unfolding remove_subscribe_room room_count set_rooms find_or_add_subscriber
remove_subscribe_room-present appid room_id count c h =
    elim (Option-cases (lookup appid c.subscribers)) [
      | inl n ↦ absurd (ground (arith, n, h))
      | inr (s, n) ↦ ground (arith, n, h)
    ]
