-- ===== src/Channel/CallLaws.antt =====
-- Opening a connection sends messages that tell what it changed.
use im_service_modify.RouteServer.Known.{user}
use im_service_modify.Channel.SendLaws.{SetsUser-silent, SetsUser-subscribe}
use im_service_modify.Maps.{lookup-insert, lookup}
use im_service_modify.Channel.View.{
  view, lookup-find_or_add_room, lookup-find_or_add_user, user_view, room_count-set_rooms,
  user_count-set_users, add_subscribe_lem, room_count-set_users, user_count-set_rooms, set_rooms,
  set_users, room_count, user_count, IsCounted,
}
use im_service_modify.Channel.Calls.{Sends, open_user, SetsRoom, SetsUser, IsAllowed}
use im_service_modify.Channel.Counts.{
  online_count-pack, total_count-pack, online_count, total_count, pack,
}
use im_service_modify.Channel.{
  flag_number, number_or_zero, add_connection, find_or_add_subscriber, Channel, subscribe,
}
use im_service_modify.Prelude.{
  Option-cases, none, ltb, ap, ==→eq, inr, inl, Bool-cases, not, ◌%◌, ◌&&◌, refl, false, true,
  arith, some, ◌==◌, ◌^◌, ◌≡◌, ◌<◌, ◌+◌, if◌then◌else◌, Option, List, Bool, ℕ,
}

find_or_add_count :
    (appid uid a u : ℕ) (f : ℕ → List (ℕ × ℕ) → List (ℕ × ℕ)) (o : Option ℕ) (c : Channel)
    → ((m : List (ℕ × ℕ)) → lookup u (f uid m) ≡ (if u == uid then o else lookup u m))
    → user_count a u (set_users appid (f uid (find_or_add_subscriber appid c).uids) c)
      ≡ (if a == appid && u == uid then o else user_count a u c)
find_or_add_count appid uid a u f o c h = grind (
  arith,
  user_count-set_users appid a u (f uid (find_or_add_subscriber appid c).uids) c,
  h (find_or_add_subscriber appid c).uids,
  lookup-find_or_add_user appid u c,
)

find_or_add_room_count :
    (appid j' a j : ℕ) (f : ℕ → List (ℕ × ℕ) → List (ℕ × ℕ)) (o : Option ℕ) (c : Channel)
    → ((m : List (ℕ × ℕ)) → lookup j (f j' m) ≡ (if j == j' then o else lookup j m))
    → room_count a j (set_rooms appid (f j' (find_or_add_subscriber appid c).room_ids) c)
      ≡ (if a == appid && j == j' then o else room_count a j c)
find_or_add_room_count appid j' a j f o c h = grind (
  arith,
  room_count-set_rooms appid a j (f j' (find_or_add_subscriber appid c).room_ids) c,
  h (find_or_add_subscriber appid c).room_ids,
  lookup-find_or_add_room appid j c,
)

pub set_users-SetsUser :
    (appid uid : ℕ) (f : ℕ → List (ℕ × ℕ) → List (ℕ × ℕ)) (o : Option ℕ) (c : Channel)
    → ((u : ℕ) (m : List (ℕ × ℕ)) → lookup u (f uid m) ≡ (if u == uid then o else lookup u m))
    → ((n : ℕ) → o ≡ some n → 0 < total_count n)
    → SetsUser appid uid o c (set_users appid (f uid (find_or_add_subscriber appid c).uids) c)
set_users-SetsUser appid uid f o c h g = record {
  waiting = unfold set_users in refl;
  users = λ a u. find_or_add_count appid uid a u f o c (h u);
  rooms = λ a j. room_count-set_users appid a j (f uid (find_or_add_subscriber appid c).uids) c;
  positive = g;
}

pub set_rooms-SetsRoom :
    (appid room_id : ℕ) (f : ℕ → List (ℕ × ℕ) → List (ℕ × ℕ)) (o : Option ℕ) (c : Channel)
    → ((j : ℕ) (m : List (ℕ × ℕ))
        → lookup j (f room_id m) ≡ (if j == room_id then o else lookup j m))
    → ((n : ℕ) → o ≡ some n → 0 < n)
    → SetsRoom appid room_id o c
        (set_rooms appid (f room_id (find_or_add_subscriber appid c).room_ids) c)
set_rooms-SetsRoom appid room_id f o c h g = record {
  waiting = unfold set_rooms in refl;
  users =
      λ a u. user_count-set_rooms appid a u (f room_id (find_or_add_subscriber appid c).room_ids) c;
  rooms = λ a j. find_or_add_room_count appid room_id a j f o c (h j);
  positive = g;
}

-- The count of a user with one connection more.
abbrev more : Bool → ℕ → ℕ
more online n = pack (if online then online_count n + 1 else online_count n) (total_count n + 1)

total_count-more :
    (online : Bool) (n : ℕ)
    → total_count n + 1 < 2 ^ 16
    → online_count n + 1 < 2 ^ 16
    → total_count (more online n) ≡ total_count n + 1
total_count-more true n h g = total_count-pack (online_count n + 1) (total_count n + 1) g h
total_count-more false n h g = total_count-pack (online_count n) (total_count n + 1) (omega arith) h

online_count-more :
    (online : Bool) (n : ℕ)
    → total_count n + 1 < 2 ^ 16
    → online_count n + 1 < 2 ^ 16
    → online_count (more online n) ≡ (if online then online_count n + 1 else online_count n)
online_count-more true n h g = online_count-pack (online_count n + 1) (total_count n + 1) g h
online_count-more false n h g =
    online_count-pack (online_count n) (total_count n + 1) (omega arith) h

lookup-add_connection :
    (uid u n : ℕ) (online : Bool) (m : List (ℕ × ℕ))
    → online_count n + 1 < 2 ^ 16
    → lookup u (add_connection uid online n m)
      ≡ (if u == uid then some (more online n) else lookup u m)
unfolding add_connection
lookup-add_connection uid u n online m g = grind (
  arith,
  lookup-insert uid u
      (pack (if online then (online_count n + 1) % 2 ^ 64 else online_count n) (total_count n + 1))
      m,
)

open_user-SetsUser :
    (appid uid n : ℕ) (online : Bool) (c : Channel)
    → total_count n + 1 < 2 ^ 16
    → online_count n + 1 < 2 ^ 16
    → SetsUser appid uid
        (some (more online n))
        c
        (set_users appid (add_connection uid online n (find_or_add_subscriber appid c).uids) c)
open_user-SetsUser appid uid n online c h g =
    set_users-SetsUser appid uid (λ k m. add_connection k online n m) (some (more online n)) c
      (λ u m. lookup-add_connection uid u n online m g)
      (λ k e. grind (arith, total_count-more online n h g, e))

-- What the view becomes.
more-new :
    (online : Bool) (n : ℕ)
    → total_count n + 1 < 2 ^ 16
    → online_count n + 1 < 2 ^ 16
    → online_count n ≡ 0
    → user_view (some (more online n)) ≡ some (not (flag_number online == 0))
more-new true n h g e = ground (arith, online_count-more true n h g)
more-new false n h g e = ground (arith, online_count-more false n h g)

-- A counted user's total is 0 only if it has no count.
total-absent :
    (a u : ℕ) (c : Channel)
    → IsCounted c
    → total_count (number_or_zero (user_count a u c)) ≡ 0
    → user_count a u c ≡ none
total-absent a u c i h = elim (Option-cases (user_count a u c)) [
  | inl e ↦ e
  | inr (n, e) ↦ absurd (ground (arith, i.users a u n e, h, e))
]

total-present :
    (a u : ℕ) (c : Channel)
    → 0 < total_count (number_or_zero (user_count a u c))
    → user_count a u c ≡ some (number_or_zero (user_count a u c))
unfolding total_count
total-present a u c h = elim (Option-cases (user_count a u c)) [
  | inl e ↦ absurd (ground (arith, h, e))
  | inr (n, e) ↦ rw e refl
]

online_count-absent :
    (a u : ℕ) (c : Channel)
    → IsCounted c
    → total_count (number_or_zero (user_count a u c)) ≡ 0
    → online_count (number_or_zero (user_count a u c)) ≡ 0
unfolding online_count
online_count-absent a u c i h = rw (total-absent a u c i h) (omega arith)

pub view-present :
    (a u : ℕ) (c : Channel)
    → 0 < total_count (number_or_zero (user_count a u c))
    → view (user a u) c ≡ some (ltb 0 (online_count (number_or_zero (user_count a u c))))
unfolding view
view-present a u c h = ap user_view (total-present a u c h)

pub subscribe-Sends :
    (appid uid : ℕ) (online : Bool) (c : Channel)
    → IsCounted c
    → IsAllowed (open_user appid uid online) c
    → Sends (user appid uid) c (subscribe appid uid online c)
unfolding subscribe IsAllowed
subscribe-Sends appid uid online c i (h, g) =
    let n = number_or_zero (user_count appid uid c) in
    let s = open_user-SetsUser appid uid n online c h g in
    let c' =
      set_users appid (add_connection uid online n (find_or_add_subscriber appid c).uids) c in
    rw (add_subscribe_lem appid uid online c) (elim (Bool-cases (total_count n == 0)) [
      | inl z ↦ rw z (
          SetsUser-subscribe appid uid (flag_number online) (some (more online n)) c c' s
            (more-new online n h g (online_count-absent appid uid c i (==→eq (total_count n) 0 z)))
            i)
      | inr z ↦ elim (Bool-cases (online_count n == 0 && online)) [
        | inl y ↦
            rw (z, y)
              (SetsUser-subscribe appid uid 1 (some (more online n)) c c' s
                (ground (arith, online_count-more online n h g, y)) i)
        | inr y ↦
            rw (z, y)
              (SetsUser-silent appid uid (some (more online n)) c c' s
                (ground (arith, online_count-more online n h g, y, z, view-present appid uid c)) i)
      ]
    ])
