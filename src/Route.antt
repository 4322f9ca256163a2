-- ===== src/Route.antt =====
-- ServerIM/model/route.go and ServerIM/model/ClientSet.go: the clients of an app's users and
-- rooms that are connected to this instance. A client is its address and its user. The sets
-- that leave the route are copies, so a set that the route changes in place belongs to it
-- alone. The functions of `RouteBase` that do nothing here are left out.
use im_service_modify.Prelude.{
  ◌∷◌, ℕ, Bool, true, false, List, [], Option, none, some, ltb, ◌==◌, if◌then◌else◌, length,
}
use im_service_modify.Maps.{lookup, insert, remove}
pub mod Sets
pub mod Laws

pub record Client : Type 0 where
  pub address : ℕ
  pub uid : ℕ

-- `map[*Client]struct{}`
abbrev pub ClientSet : Type 0
ClientSet = List (ℕ × Unit {0})

abbrev pub new_client_set : ClientSet
new_client_set = []

unfoldable pub add_to_set : Client → ClientSet → ClientSet
add_to_set c set = insert c.address tt set

abbrev pub exists_entry : Option (Unit {0}) → Bool
exists_entry none = false
exists_entry (some u) = true

unfoldable pub in_set : ℕ → ClientSet → Bool
in_set address set = exists_entry (lookup address set)

unfoldable pub remove_from_set : Client → ClientSet → ClientSet
remove_from_set c set = if in_set c.address set then remove c.address set else set

abbrev pub count : ClientSet → ℕ
count set = length set

abbrev pub SetMap : Type 0
SetMap = List (ℕ × ClientSet)

pub record Route : Type 0 where
  pub appid : ℕ
  pub clients : SetMap
  pub room_clients : SetMap

abbrev pub new_route : ℕ → Route
new_route appid = record { appid = appid; clients = []; room_clients = [] }

abbrev pub set_or_new : Option ClientSet → ClientSet
set_or_new none = new_client_set
set_or_new (some set) = set

-- The body of `AddClient` and `AddRoomClient`.
unfoldable pub add_under : ℕ → Client → SetMap → SetMap
add_under key c m = insert key (add_to_set c (set_or_new (lookup key m))) m

abbrev pub put_back : ℕ → ClientSet → SetMap → SetMap
put_back key set m = if count set == 0 then remove key m else insert key set m

-- The body of `RemoveClient` and `RemoveRoomClient`: whether there is a set under the key, and the
-- sets afterwards.
unfoldable pub remove_under : ℕ → Client → SetMap → Bool × SetMap
remove_under key c m = elim (lookup key m) [
  | none ↦ (false, m)
  | some set ↦ (true, put_back key (remove_from_set c set) m)
]

unfoldable pub add_client : Client → Route → Route
add_client c r = record r { clients = add_under c.uid c r.clients }

unfoldable pub remove_client : Client → Route → Bool × Route
remove_client c r =
    let (found, m) = remove_under c.uid c r.clients in (found, record r { clients = m })

unfoldable pub add_room_client : ℕ → Client → Route → Route
add_room_client room_id c r = record r { room_clients = add_under room_id c r.room_clients }

unfoldable pub remove_room_client : ℕ → Client → Route → Bool × Route
remove_room_client room_id c r =
    let (found, m) = remove_under room_id c r.room_clients in (found, record r { room_clients = m })

-- nil is `none`; the set is a copy.
unfoldable pub find_client_set : ℕ → Route → Option ClientSet
find_client_set uid r = lookup uid r.clients

unfoldable pub find_room_client_set : ℕ → Route → Option ClientSet
find_room_client_set room_id r = lookup room_id r.room_clients

unfoldable pub is_online : ℕ → Route → Bool
is_online uid r = elim (lookup uid r.clients) [ none ↦ false | some set ↦ ltb 0 (count set) ]

-- The calls that change a route.
pub data Call : Type 0 where
  connect : Client → Call
  disconnect : Client → Call
  enter_room : ℕ → Client → Call
  leave_room : ℕ → Client → Call

unfoldable pub call : Call → Route → Route
call (connect c) r = add_client c r
call (disconnect c) r = (remove_client c r).1
call (enter_room room_id c) r = add_room_client room_id c r
call (leave_room room_id c) r = (remove_room_client room_id c r).1

unfoldable pub calls : List Call → Route → Route
calls [] r = r
calls (c ∷ cs) r = calls cs (call c r)
