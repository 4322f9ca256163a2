-- ===== src/Channel/MapLaws.antt =====
-- A channel's maps have one entry for a key.
use im_service_modify.Prelude.{
  ℕ, ◌-◌, inl, inr, Bool, true, false, ◌&&◌, List, [], ◌∷◌, if◌then◌else◌, ◌==◌, ltb, Bool-cases,
  Option-cases,
}
use im_service_modify.Channel.Calls.{
  ClientCall, close_room, open_room, close_user, open_user, run_call,
}
use im_service_modify.Channel.Counts.{online_count, total_count}
use im_service_modify.Message.Body.{Message}
use im_service_modify.Channel.View.{
  remove_subscribe_room-present, remove_subscribe-present, remove_subscribe-absent,
  remove_subscribe_room-absent, add_subscribe_lem, room_count, user_count, add_subscribe_room_lem,
  set_rooms, set_users,
}
use im_service_modify.Channel.{
  number_or_zero, remove_room_count, remove_connection, add_connection, find_or_add_subscriber,
  unsubscribe_room, subscribe_room, unsubscribe, subscribe, enqueue, Channel, Subscriber, Called,
}
use im_service_modify.Maps.{IsMap, insert-IsMap, remove-IsMap, lookup, insert}

unfoldable pub IsSubscriberMap : Subscriber → Type 0
IsSubscriberMap s = IsMap s.uids × IsMap s.room_ids

unfoldable pub AreSubscriberMaps : List (ℕ × Subscriber) → Type 0
AreSubscriberMaps [] = Unit
AreSubscriberMaps ((appid, s) ∷ subs) = IsSubscriberMap s × AreSubscriberMaps subs

pub record IsChannelMap (c : Channel) : Type 0 where
  pub apps : IsMap c.subscribers
  pub each : AreSubscriberMaps c.subscribers

insert-AreSubscriberMaps :
    (appid : ℕ) (s : Subscriber) (subs : List (ℕ × Subscriber))
    → IsSubscriberMap s
    → AreSubscriberMaps subs
    → AreSubscriberMaps (insert appid s subs)
unfolding AreSubscriberMaps insert
insert-AreSubscriberMaps appid s [] i a = (i, tt)
insert-AreSubscriberMaps appid s ((j, t) ∷ subs) i (h, a) = elim (Bool-cases (appid == j)) [
  | inl e ↦ rw e (i, a)
  | inr e ↦ rw e (h, insert-AreSubscriberMaps appid s subs i a)
]

find_or_add-IsSubscriberMap :
    (appid : ℕ) (subs : List (ℕ × Subscriber)) (wt : List Message)
    → AreSubscriberMaps subs
    → IsSubscriberMap (find_or_add_subscriber appid (record { subscribers = subs; wt = wt }))
unfolding AreSubscriberMaps lookup find_or_add_subscriber IsSubscriberMap IsMap
find_or_add-IsSubscriberMap appid [] wt a = (tt, tt)
find_or_add-IsSubscriberMap appid ((j, t) ∷ subs) wt (h, a) = elim (Bool-cases (appid == j)) [
  | inl e ↦ rw e h
  | inr e ↦ rw e (find_or_add-IsSubscriberMap appid subs wt a)
]

set_users-IsChannelMap :
    (appid : ℕ) (uids : List (ℕ × ℕ)) (c : Channel)
    → IsChannelMap c
    → IsMap uids
    → IsChannelMap (set_users appid uids c)
unfolding set_users IsSubscriberMap
set_users-IsChannelMap appid uids c i h =
    let s = record (find_or_add_subscriber appid c) { uids = uids } in
    let (x, y) = find_or_add-IsSubscriberMap appid c.subscribers c.wt i.each in
    record {
      apps = insert-IsMap appid s c.subscribers i.apps;
      each = insert-AreSubscriberMaps appid s c.subscribers (h, y) i.each;
    }

set_rooms-IsChannelMap :
    (appid : ℕ) (rooms : List (ℕ × ℕ)) (c : Channel)
    → IsChannelMap c
    → IsMap rooms
    → IsChannelMap (set_rooms appid rooms c)
unfolding set_rooms IsSubscriberMap
set_rooms-IsChannelMap appid rooms c i h =
    let s = record (find_or_add_subscriber appid c) { room_ids = rooms } in
    let (x, y) = find_or_add-IsSubscriberMap appid c.subscribers c.wt i.each in
    record {
      apps = insert-IsMap appid s c.subscribers i.apps;
      each = insert-AreSubscriberMaps appid s c.subscribers (x, h) i.each;
    }

found-users-IsMap :
    (appid : ℕ) (c : Channel) → IsChannelMap c → IsMap (find_or_add_subscriber appid c).uids
unfolding IsSubscriberMap
found-users-IsMap appid c i = (find_or_add-IsSubscriberMap appid c.subscribers c.wt i.each).0

found-rooms-IsMap :
    (appid : ℕ) (c : Channel) → IsChannelMap c → IsMap (find_or_add_subscriber appid c).room_ids
unfolding IsSubscriberMap
found-rooms-IsMap appid c i = (find_or_add-IsSubscriberMap appid c.subscribers c.wt i.each).1

pub enqueue-IsChannelMap : (m : Message) (c : Channel) → IsChannelMap c → IsChannelMap (enqueue m c)
unfolding enqueue
enqueue-IsChannelMap m c i = record { apps = i.apps; each = i.each }

-- Whatever an operation is still to send.
if-IsChannelMap :
    (b : Bool) (r r' : Called)
    → IsChannelMap r.1
    → IsChannelMap r'.1
    → IsChannelMap (let r'' : Called = if b then r else r' in r'').1
if-IsChannelMap true r r' i j = i
if-IsChannelMap false r r' i j = j

sending-IsChannelMap :
    (b b' : Bool) (ms ms' ms'' : List Message) (c : Channel)
    → IsChannelMap c
    → IsChannelMap
        (let r : Called = if b then (ms, c) else if b' then (ms', c) else (ms'', c) in r).1
sending-IsChannelMap b b' ms ms' ms'' c i =
    if-IsChannelMap b (ms, c) (if b' then (ms', c) else (ms'', c)) i
      (if-IsChannelMap b' (ms', c) (ms'', c) i i)

if-IsMap : (b : Bool) (m m' : List (ℕ × ℕ)) → IsMap m → IsMap m' → IsMap (if b then m else m')
if-IsMap true m m' i j = i
if-IsMap false m m' i j = j

subscribe-IsChannelMap :
    (appid uid : ℕ) (online : Bool) (c : Channel)
    → IsChannelMap c
    → IsChannelMap (subscribe appid uid online c).1
unfolding subscribe add_connection
subscribe-IsChannelMap appid uid online c i =
    let n = number_or_zero (user_count appid uid c) in
    rw (add_subscribe_lem appid uid online c) (
      sending-IsChannelMap (total_count n == 0) (online_count n == 0 && online) _ _ _ _
        (set_users-IsChannelMap appid _ c i (insert-IsMap uid _ _ (found-users-IsMap appid c i))))

unsubscribe-IsChannelMap :
    (appid uid : ℕ) (online : Bool) (c : Channel)
    → IsChannelMap c
    → IsChannelMap (unsubscribe appid uid online c).1
unfolding unsubscribe remove_connection
unsubscribe-IsChannelMap appid uid online c i = elim (Option-cases (user_count appid uid c)) [
  | inl e ↦ rw (remove_subscribe-absent appid uid online c e) i
  | inr (n, e) ↦ rw (remove_subscribe-present appid uid n online c e) (
      sending-IsChannelMap (total_count n == 1)
        (ltb 1 (total_count n) && (online_count n == 1 && online)) _ _ _ _
        (set_users-IsChannelMap appid _ c i (
          if-IsMap _ _ _ (insert-IsMap uid _ _ (found-users-IsMap appid c i))
            (remove-IsMap uid _ (found-users-IsMap appid c i)))))
]

subscribe_room-IsChannelMap :
    (appid room_id : ℕ) (c : Channel)
    → IsChannelMap c
    → IsChannelMap (subscribe_room appid room_id c).1
unfolding subscribe_room
subscribe_room-IsChannelMap appid room_id c i =
    let j =
      set_rooms-IsChannelMap appid _ c i (insert-IsMap room_id _ _ (found-rooms-IsMap appid c i)) in
    rw (add_subscribe_room_lem appid room_id c) (if-IsChannelMap _ _ _ j j)

unsubscribe_room-IsChannelMap :
    (appid room_id : ℕ) (c : Channel)
    → IsChannelMap c
    → IsChannelMap (unsubscribe_room appid room_id c).1
unfolding unsubscribe_room remove_room_count
unsubscribe_room-IsChannelMap appid room_id c i = elim (Option-cases (room_count appid room_id c)) [
  | inl e ↦ rw (remove_subscribe_room-absent appid room_id c e) i
  | inr (n, e) ↦
      let j = set_rooms-IsChannelMap appid _ c i (
        if-IsMap (ltb 1 n) _ _ (insert-IsMap room_id (n - 1) _ (found-rooms-IsMap appid c i))
          (remove-IsMap room_id _ (found-rooms-IsMap appid c i))) in
      rw (remove_subscribe_room-present appid room_id n c e) (if-IsChannelMap _ _ _ j j)
]

pub run_call-IsChannelMap :
    (k : ClientCall) (c : Channel) → IsChannelMap c → IsChannelMap (run_call k c).1
unfolding run_call
run_call-IsChannelMap (open_user appid uid online) c i = subscribe-IsChannelMap appid uid online c i
run_call-IsChannelMap (close_user appid uid online) c i =
    unsubscribe-IsChannelMap appid uid online c i
run_call-IsChannelMap (open_room appid room_id) c i = subscribe_room-IsChannelMap appid room_id c i
run_call-IsChannelMap (close_room appid room_id) c i =
    unsubscribe_room-IsChannelMap appid room_id c i
