-- ===== src/Channel/ResubscribeLaws.antt =====
-- The messages of a new connection tell the route server all that the channel knows.
use im_service_modify.Channel.Counts.{online_count}
use im_service_modify.Message.Creators.{msg_subscribe_room}
use im_service_modify.Maps.{IsMap, lookup}
use im_service_modify.Message.Fixed.{AppRoomId}
use im_service_modify.Channel.MapLaws.{IsChannelMap, IsSubscriberMap, AreSubscriberMaps}
use im_service_modify.Channel.View.{room_view, user_view, room_count, user_count, view}
use im_service_modify.Message.Body.{message, Body, Message}
use im_service_modify.Channel.Resubscribe.{
  resubscribe_room, set_seq, app_room_ids, get_all_subscriber, resubscribe, number_from,
  get_all_room_subscriber, room_messages, subscribe_messages, user_messages,
}
use im_service_modify.Channel.{
  subscribe_room_to, subscribe_to, Channel, route_message, Subscriber, flag_number,
}
use im_service_modify.Prelude.{
  ℕ, ◌+◌, ◌≡◌, refl, ap, ◌∙◌, Bool, true, false, not, Option, none, some, List, [], ◌∷◌, ◌++◌,
  arith, if◌then◌else◌, ◌==◌, ltb, Option-cases,
}
use im_service_modify.RouteServer.Known.{
  Key, user, group_room, after, after-append, change_of, changed,
}

-- `o` if it has a value, else the old one.
abbrev or_old : Option Bool → Option Bool → Option Bool
or_old none old = old
or_old (some b) old = some b

flag_number_lem : (b : Bool) → not (flag_number b == 0) ≡ b
flag_number_lem true = refl
flag_number_lem false = refl

user_messages-user :
    (appid a u : ℕ) (uids : List (ℕ × ℕ)) (old : Option Bool)
    → IsMap uids
    → after (user_messages appid uids) (user a u) old
      ≡ (if a == appid then or_old (user_view (lookup u uids)) old else old)
unfolding user_messages after change_of IsMap lookup
user_messages-user appid a u [] old i = grind arith
user_messages-user appid a u ((j, n) ∷ uids) old (h, i) = grind (
  arith,
  user_messages-user appid a u uids
      (changed (change_of (subscribe_to appid j (flag_number (ltb 0 (online_count n)))) (user a u))
        old)
      i,
  flag_number_lem (ltb 0 (online_count n)),
  h,
)

user_messages-room :
    (appid a j : ℕ) (uids : List (ℕ × ℕ)) (old : Option Bool)
    → after (user_messages appid uids) (group_room a j) old ≡ old
unfolding user_messages after change_of
user_messages-room appid a j [] old = refl
user_messages-room appid a j ((k, n) ∷ uids) old = user_messages-room appid a j uids old

subscribe_messages-user :
    (a u : ℕ) (subs : List (ℕ × Subscriber)) (wt : List Message) (old : Option Bool)
    → IsMap subs
    → AreSubscriberMaps subs
    → after (subscribe_messages (get_all_subscriber subs)) (user a u) old
      ≡ or_old (user_view (user_count a u (record { subscribers = subs; wt = wt }))) old
unfolding subscribe_messages get_all_subscriber after AreSubscriberMaps IsSubscriberMap IsMap lookup
    user_count
subscribe_messages-user a u [] wt old i m = refl
subscribe_messages-user a u ((appid, s) ∷ subs) wt old (h, i) ((m, _), ms) =
    after-append (user_messages appid s.uids) (subscribe_messages (get_all_subscriber subs))
      (user a u) old
    ∙ subscribe_messages-user a u subs wt (after (user_messages appid s.uids) (user a u) old) i ms
    ∙ grind (arith, user_messages-user appid a u s.uids old m, h)

subscribe_messages-room :
    (a j : ℕ) (subs : List (ℕ × Subscriber)) (old : Option Bool)
    → after (subscribe_messages (get_all_subscriber subs)) (group_room a j) old ≡ old
unfolding subscribe_messages get_all_subscriber after
subscribe_messages-room a j [] old = refl
subscribe_messages-room a j ((appid, s) ∷ subs) old =
    after-append (user_messages appid s.uids) (subscribe_messages (get_all_subscriber subs))
      (group_room a j) old
    ∙ subscribe_messages-room a j subs (after (user_messages appid s.uids) (group_room a j) old)
    ∙ user_messages-room appid a j s.uids old

room_messages-append :
    (xs ys : List AppRoomId) → room_messages (xs ++ ys) ≡ room_messages xs ++ room_messages ys
unfolding room_messages
room_messages-append [] ys = refl
room_messages-append (x ∷ xs) ys =
    ap (λ zs. route_message msg_subscribe_room (Body.app_room_id x) ∷ zs)
      (room_messages-append xs ys)

app_rooms-room :
    (appid a j : ℕ) (rooms : List (ℕ × ℕ)) (old : Option Bool)
    → after (room_messages (app_room_ids appid rooms)) (group_room a j) old
      ≡ (if a == appid then or_old (room_view (lookup j rooms)) old else old)
unfolding room_messages app_room_ids after change_of lookup
app_rooms-room appid a j [] old = grind arith
app_rooms-room appid a j ((k, n) ∷ rooms) old = grind (
  arith,
  app_rooms-room appid a j rooms
      (changed (change_of (subscribe_room_to appid k) (group_room a j)) old),
  Option-cases (lookup j rooms),
)

room_messages-user :
    (a u : ℕ) (ids : List AppRoomId) (old : Option Bool)
    → after (room_messages ids) (user a u) old ≡ old
unfolding room_messages after change_of
room_messages-user a u [] old = refl
room_messages-user a u (id ∷ ids) old = room_messages-user a u ids old

room_messages-room :
    (a j : ℕ) (subs : List (ℕ × Subscriber)) (wt : List Message) (old : Option Bool)
    → IsMap subs
    → after (room_messages (get_all_room_subscriber subs)) (group_room a j) old
      ≡ or_old (room_view (room_count a j (record { subscribers = subs; wt = wt }))) old
unfolding get_all_room_subscriber room_messages after IsMap lookup room_count
room_messages-room a j [] wt old i = refl
room_messages-room a j ((appid, s) ∷ subs) wt old (h, i) =
    ap (λ ms. after ms (group_room a j) old)
      (room_messages-append (app_room_ids appid s.room_ids) (get_all_room_subscriber subs))
    ∙ after-append (room_messages (app_room_ids appid s.room_ids))
        (room_messages (get_all_room_subscriber subs)) (group_room a j) old
    ∙ room_messages-room a j subs wt
        (after (room_messages (app_room_ids appid s.room_ids)) (group_room a j) old) i
    ∙ grind (arith, app_rooms-room appid a j s.room_ids old, h)

pub change_of-set_seq :
    (n : ℕ) (m : Message) (key : Key) → change_of (set_seq n m) key ≡ change_of m key
unfolding change_of
change_of-set_seq n (message cmd seq version flag body) key = refl

after-number_from :
    (n : ℕ) (ms : List Message) (key : Key) (old : Option Bool)
    → after (number_from n ms) key old ≡ after ms key old
unfolding after number_from
after-number_from n [] key old = refl
after-number_from n (m ∷ ms) key old =
    after-number_from (n + 1) ms key (changed (change_of (set_seq (n + 1) m) key) old)
    ∙ ap (λ x. after ms key (changed x old)) (change_of-set_seq (n + 1) m key)

or_none : (o : Option Bool) → or_old o none ≡ o
or_none none = refl
or_none (some b) = refl

told :
    (c : Channel) (key : Key)
    → IsChannelMap c
    → after
        (room_messages (get_all_room_subscriber c.subscribers))
        key
        (after (subscribe_messages (get_all_subscriber c.subscribers)) key none)
      ≡ view key c
unfolding view user_count room_count
told c (user a u) i =
    room_messages-user a u (get_all_room_subscriber c.subscribers) _
    ∙ subscribe_messages-user a u c.subscribers c.wt none i.apps i.each
    ∙ or_none (user_view (user_count a u c))
told c (group_room a j) i =
    ap (after (room_messages (get_all_room_subscriber c.subscribers)) (group_room a j))
      (subscribe_messages-room a j c.subscribers none)
    ∙ room_messages-room a j c.subscribers c.wt none i.apps
    ∙ or_none (room_view (room_count a j c))

-- What the route server makes of them, if it knew nothing.
pub after-resubscribe :
    (c : Channel) (key : Key) (n : ℕ)
    → IsChannelMap c
    → after ((resubscribe c 0).1 ++ (resubscribe_room c n).1) key none ≡ view key c
unfolding resubscribe resubscribe_room view
after-resubscribe c key n i =
    let us = subscribe_messages (get_all_subscriber c.subscribers) in
    let rs = room_messages (get_all_room_subscriber c.subscribers) in
    after-append (number_from 0 us) (number_from n rs) key none
    ∙ after-number_from n rs key (after (number_from 0 us) key none)
    ∙ ap (after rs key) (after-number_from 0 us key none)
    ∙ told c key i
