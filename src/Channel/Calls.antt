-- ===== src/Channel/Calls.antt =====
-- The calls of a channel by the connections of the clients, as one function, and what they rely on:
-- a user has fewer than 65535 connections, and one that is counted as online closes as such only
-- while an online connection is counted. A call returns the messages that tell what has changed, if
-- the route server has to know it.
use im_service_modify.Wire.{ok}
use im_service_modify.Channel.Counts.{online_count, total_count}
use im_service_modify.RouteServer.Instance.{AppRoute, handle_route_message}
use im_service_modify.Channel.View.{IsCounted, room_count, user_count, view}
use im_service_modify.Message.Body.{Message}
use im_service_modify.Channel.{
  unsubscribe_room, subscribe_room, unsubscribe, number_or_zero, subscribe, Channel, Called,
}
use im_service_modify.Prelude.{
  true, ◌^◌, ◌&&◌, ◌<◌, ◌∷◌, ◌==◌, ◌+◌, some, [], if◌then◌else◌, Option, ◌⊎◌, none, ◌≡◌, Bool, List,
  ℕ,
}
use im_service_modify.RouteServer.Known.{Key, after, user, group_room, change_of}

pub data ClientCall : Type 0 where
  open_user : ℕ → ℕ → Bool → ClientCall
  close_user : ℕ → ℕ → Bool → ClientCall
  open_room : ℕ → ℕ → ClientCall
  close_room : ℕ → ℕ → ClientCall

unfoldable pub run_call : ClientCall → Channel → Called
run_call (open_user appid uid online) c = subscribe appid uid online c
run_call (close_user appid uid online) c = unsubscribe appid uid online c
run_call (open_room appid room_id) c = subscribe_room appid room_id c
run_call (close_room appid room_id) c = unsubscribe_room appid room_id c

unfoldable pub IsAllowed : ClientCall → Channel → Type 0
IsAllowed (open_user appid uid online) c =
    let n = number_or_zero (user_count appid uid c) in
    (total_count n + 1 < 2 ^ 16) × (online_count n + 1 < 2 ^ 16)
IsAllowed (close_user appid uid online) c =
    (n : ℕ) → user_count appid uid c ≡ some n → online ≡ true → 0 < online_count n
IsAllowed (open_room appid room_id) c = number_or_zero (room_count appid room_id c) + 1 < 2 ^ 64
IsAllowed (close_room appid room_id) c = Unit

-- The route server takes the message.
unfoldable pub IsHandled : Message → Type 0
IsHandled m = (apps : AppRoute) → (apps' : AppRoute) × (handle_route_message m apps ≡ ok apps')

unfoldable pub AreHandled : List Message → Type 0
AreHandled [] = Unit
AreHandled (m ∷ ms) = IsHandled m × AreHandled ms

-- The user or room that a call is about.
unfoldable pub key_of : ClientCall → Key
key_of (open_user appid uid online) = user appid uid
key_of (close_user appid uid online) = user appid uid
key_of (open_room appid room_id) = group_room appid room_id
key_of (close_room appid room_id) = group_room appid room_id

-- No message of the list is about the user or room.
unfoldable pub IsSilent : Key → List Message → Type 0
IsSilent key [] = Unit
IsSilent key (m ∷ ms) = (change_of m key ≡ none) × IsSilent key ms

-- No two messages of the list are about the same user or room.
unfoldable pub IsApart : List Message → Type 0
IsApart [] = Unit
IsApart (m ∷ ms) = ((key : Key) → (change_of m key ≡ none) ⊎ IsSilent key ms) × IsApart ms

-- The messages of a call about `k` in the channel `c` tell what the call has changed.
pub record Sends (k : Key) (c : Channel) (r : Called) : Type 0 where
  pub waiting : r.1.wt ≡ c.wt
  pub tells : (key : Key) → after r.0 key (view key c) ≡ view key r.1
  pub counted : IsCounted r.1
  pub handled : AreHandled r.0
  pub own : (key : Key) → IsSilent key r.0 ⊎ (key ≡ k)
  pub apart : IsApart r.0

-- `c'` has one user's count changed, or one room's.
pub record SetsUser (appid uid : ℕ) (o : Option ℕ) (c c' : Channel) : Type 0 where
  pub waiting : c'.wt ≡ c.wt
  pub users :
      (a u : ℕ) → user_count a u c' ≡ (if a == appid && u == uid then o else user_count a u c)
  pub rooms : (a j : ℕ) → room_count a j c' ≡ room_count a j c
  pub positive : (n : ℕ) → o ≡ some n → 0 < total_count n

pub record SetsRoom (appid room_id : ℕ) (o : Option ℕ) (c c' : Channel) : Type 0 where
  pub waiting : c'.wt ≡ c.wt
  pub users : (a u : ℕ) → user_count a u c' ≡ user_count a u c
  pub rooms :
      (a j : ℕ) → room_count a j c' ≡ (if a == appid && j == room_id then o else room_count a j c)
  pub positive : (n : ℕ) → o ≡ some n → 0 < n
