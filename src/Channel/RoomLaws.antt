-- ===== src/Channel/RoomLaws.antt =====
-- Entering and leaving a room sends messages that tell what changed.
use im_service_modify.Channel.SendLaws.{
  SetsRoom-subscribe, SetsRoom-silent, Sends-nothing, SetsRoom-unsubscribe,
}
use im_service_modify.Channel.CallLaws.{set_rooms-SetsRoom}
use im_service_modify.Channel.View.{
  add_subscribe_room_lem, view, remove_subscribe_room-absent, remove_subscribe_room-present,
  set_rooms, room_count, IsCounted,
}
use im_service_modify.Maps.{insert, lookup-remove, lookup-insert, lookup}
use im_service_modify.RouteServer.Known.{group_room, after}
use im_service_modify.Channel.Calls.{open_room, SetsRoom, Sends, IsAllowed}
use im_service_modify.Prelude.{
  ◌^◌, refl, ◌%◌, ◌+◌, inl, inr, Bool-cases, ◌∙◌, arith, none, Option, ◌-◌, ltb, ◌==◌, Option-cases,
  some, if◌then◌else◌, ◌≡◌, List, ℕ,
}
use im_service_modify.Channel.{
  number_or_zero, find_or_add_subscriber, Channel, unsubscribe_room, subscribe_room,
  remove_room_count,
}

lookup-remove_room_count :
    (room_id j n : ℕ) (m : List (ℕ × ℕ))
    → lookup j (remove_room_count room_id n m)
      ≡ (if j == room_id then if ltb 1 n then some (n - 1) else none else lookup j m)
unfolding remove_room_count
lookup-remove_room_count room_id j n m =
    grind (arith, lookup-insert room_id j (n - 1) m, lookup-remove room_id j m)

pub subscribe_room-Sends :
    (appid room_id : ℕ) (c : Channel)
    → IsCounted c
    → IsAllowed (open_room appid room_id) c
    → Sends (group_room appid room_id) c (subscribe_room appid room_id c)
unfolding subscribe_room IsAllowed
subscribe_room-Sends appid room_id c i h =
    let n = number_or_zero (room_count appid room_id c) in
    let k = (n + 1) % 2 ^ 64 in
    let c' = set_rooms appid (insert room_id k (find_or_add_subscriber appid c).room_ids) c in
    let s : SetsRoom appid room_id (some k) c c' =
      set_rooms-SetsRoom appid room_id (λ r m. insert r k m) (some k) c
        (λ j m. lookup-insert room_id j k m) (λ x e. ground (arith, e, h)) in
    rw (add_subscribe_room_lem appid room_id c) (elim (Bool-cases (n == 0)) [
      | inl z ↦ rw z (SetsRoom-subscribe appid room_id k c c' s i)
      | inr z ↦ rw z (
          SetsRoom-silent appid room_id (some k) c c' s
            (unfold view in ground (arith, z, Option-cases (room_count appid room_id c))) i)
    ])

unsubscribe_room-present :
    (appid room_id n : ℕ) (c : Channel)
    → IsCounted c
    → room_count appid room_id c ≡ some n
    → Sends (group_room appid room_id) c (unsubscribe_room appid room_id c)
unfolding unsubscribe_room
unsubscribe_room-present appid room_id n c i e =
    let c' =
      set_rooms appid (remove_room_count room_id n (find_or_add_subscriber appid c).room_ids) c in
    let s : (o : Option ℕ)
        → (if ltb 1 n then some (n - 1) else none) ≡ o
        → SetsRoom appid room_id o c c' =
      λ o e'.
        set_rooms-SetsRoom appid room_id (λ r m. remove_room_count r n m) o c
          (λ j m. lookup-remove_room_count room_id j n m ∙ rw e' refl)
          (λ x g. ground (arith, e', g)) in
    rw (remove_subscribe_room-present appid room_id n c e) (elim (Bool-cases (n == 1)) [
      | inl z ↦ rw z (SetsRoom-unsubscribe appid room_id c c' (s none (ground (arith, z))) i)
      | inr z ↦ rw z (
          SetsRoom-silent appid room_id (some (n - 1)) c c'
            (s (some (n - 1)) (ground (arith, z, i.rooms appid room_id n e)))
            (unfold view in rw e refl) i)
    ])

pub unsubscribe_room-Sends :
    (appid room_id : ℕ) (c : Channel)
    → IsCounted c
    → Sends (group_room appid room_id) c (unsubscribe_room appid room_id c)
unfolding unsubscribe_room after
unsubscribe_room-Sends appid room_id c i = elim (Option-cases (room_count appid room_id c)) [
  | inr (n, e) ↦ unsubscribe_room-present appid room_id n c i e
  | inl e ↦
      rw (remove_subscribe_room-absent appid room_id c e)
        (Sends-nothing (group_room appid room_id) c c refl (λ key. refl) i)
]
