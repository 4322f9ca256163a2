-- ===== src/Channel/HandledLaws.antt =====
-- The route server takes every message that a channel sends on a new connection.
use im_service_modify.Message.Fixed.{AppRoomId}
use im_service_modify.Channel.{Channel, Subscriber}
use im_service_modify.RouteServer.Instance.{
  handle_subscribe_room, handle_subscribe, handle_route_message,
}
use im_service_modify.Message.Body.{message, Message}
use im_service_modify.Channel.Resubscribe.{
  get_all_room_subscriber, get_all_subscriber, set_seq, resubscribe_room, room_messages,
  user_messages, number_from, resubscribe, subscribe_messages,
}
use im_service_modify.Channel.Calls.{IsHandled, AreHandled}
use im_service_modify.Prelude.{ℕ, ◌+◌, refl, List, [], ◌∷◌, ◌++◌}

pub AreHandled-append :
    (ms ns : List Message) → AreHandled ms → AreHandled ns → AreHandled (ms ++ ns)
unfolding AreHandled
AreHandled-append [] ns h g = g
AreHandled-append (m ∷ ms) ns (x, h) g = (x, AreHandled-append ms ns h g)

pub set_seq-IsHandled : (n : ℕ) (m : Message) → IsHandled m → IsHandled (set_seq n m)
unfolding IsHandled handle_route_message
set_seq-IsHandled n (message cmd seq version flag body) h = h

number_from-AreHandled : (n : ℕ) (ms : List Message) → AreHandled ms → AreHandled (number_from n ms)
unfolding AreHandled number_from
number_from-AreHandled n [] h = tt
number_from-AreHandled n (m ∷ ms) (x, h) =
    (set_seq-IsHandled (n + 1) m x, number_from-AreHandled (n + 1) ms h)

user_messages-AreHandled : (appid : ℕ) (uids : List (ℕ × ℕ)) → AreHandled (user_messages appid uids)
unfolding AreHandled IsHandled user_messages handle_route_message handle_subscribe
user_messages-AreHandled appid [] = tt
user_messages-AreHandled appid ((uid, count) ∷ uids) =
    (λ apps. (_, refl), user_messages-AreHandled appid uids)

subscribe_messages-AreHandled :
    (subs : List (ℕ × Subscriber)) → AreHandled (subscribe_messages subs)
unfolding subscribe_messages AreHandled
subscribe_messages-AreHandled [] = tt
subscribe_messages-AreHandled ((appid, s) ∷ subs) =
    AreHandled-append (user_messages appid s.uids) (subscribe_messages subs)
      (user_messages-AreHandled appid s.uids) (subscribe_messages-AreHandled subs)

room_messages-AreHandled : (ids : List AppRoomId) → AreHandled (room_messages ids)
unfolding AreHandled IsHandled room_messages handle_route_message handle_subscribe_room
room_messages-AreHandled [] = tt
room_messages-AreHandled (id ∷ ids) = (λ apps. (_, refl), room_messages-AreHandled ids)

pub resubscribe-AreHandled :
    (c : Channel) (n : ℕ) → AreHandled ((resubscribe c 0).1 ++ (resubscribe_room c n).1)
unfolding resubscribe resubscribe_room
resubscribe-AreHandled c n =
    let us = subscribe_messages (get_all_subscriber c.subscribers) in
    let rs = room_messages (get_all_room_subscriber c.subscribers) in
    AreHandled-append (number_from 0 us) (number_from n rs)
      (number_from-AreHandled 0 us
        (subscribe_messages-AreHandled (get_all_subscriber c.subscribers)))
      (number_from-AreHandled n rs
        (room_messages-AreHandled (get_all_room_subscriber c.subscribers)))
