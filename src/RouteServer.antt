-- ===== src/RouteServer.antt =====
-- ServerIMR/model/route.go and serverCommon/model/set.go: which users and rooms of an app an
-- instance of ServerIM has, and which of the users are online.
use im_service_modify.Prelude.{
  ℕ, Bool, true, false, List, [], ◌∷◌, Option, none, some, if◌then◌else◌, arith,
}
use im_service_modify.Maps.{lookup, insert, remove}
pub mod Laws
pub mod Instance
pub mod Known
pub mod InstanceLaws
pub mod Publish
pub mod PublishLaws

abbrev pub has_value {ℓ} : {A : Type ℓ} → Option A → Bool
has_value none = false
has_value (some v) = true

-- `IntSet`
abbrev pub IntSet : Type 0
IntSet = List (ℕ × Unit {0})

abbrev pub new_int_set : IntSet
new_int_set = []

unfoldable pub contains : ℕ → IntSet → Bool
contains v set = has_value (lookup v set)

unfoldable pub add_int : ℕ → IntSet → IntSet
add_int v set = if contains v set then set else insert v tt set

unfoldable pub remove_int : ℕ → IntSet → IntSet
remove_int v set = if contains v set then remove v set else set

pub record ServerRoute : Type 0 where
  pub appid : ℕ
  pub uids : List (ℕ × Bool)
  pub room_ids : IntSet

abbrev pub new_server_route : ℕ → ServerRoute
new_server_route appid = record { appid = appid; uids = []; room_ids = new_int_set }

abbrev pub get_app_id : ServerRoute → ℕ
get_app_id r = r.appid

unfoldable pub contain_user_id : ℕ → ServerRoute → Bool
contain_user_id uid r = has_value (lookup uid r.uids)

abbrev pub bool_or_false : Option Bool → Bool
bool_or_false none = false
bool_or_false (some b) = b

unfoldable pub is_user_online : ℕ → ServerRoute → Bool
is_user_online uid r = bool_or_false (lookup uid r.uids)

unfoldable pub add_user_id : ℕ → Bool → ServerRoute → ServerRoute
add_user_id uid online r = record r { uids = insert uid online r.uids }

unfoldable pub remove_user_id : ℕ → ServerRoute → ServerRoute
remove_user_id uid r = record r { uids = remove uid r.uids }

-- The loop of `GetUserIDs`.
unfoldable pub user_ids : List (ℕ × Bool) → IntSet → IntSet
user_ids [] set = set
user_ids ((uid, online) ∷ m) set = user_ids m (add_int uid set)

unfoldable pub get_user_ids : ServerRoute → IntSet
get_user_ids r = user_ids r.uids new_int_set

unfoldable pub contain_room_id : ℕ → ServerRoute → Bool
contain_room_id room_id r = contains room_id r.room_ids

unfoldable pub add_room_id : ℕ → ServerRoute → ServerRoute
add_room_id room_id r = record r { room_ids = add_int room_id r.room_ids }

unfoldable pub remove_room_id : ℕ → ServerRoute → ServerRoute
remove_room_id room_id r = record r { room_ids = remove_int room_id r.room_ids }

-- The calls that change a route.
pub data Update : Type 0 where
  add_user : ℕ → Bool → Update
  remove_user : ℕ → Update
  add_room : ℕ → Update
  remove_room : ℕ → Update

unfoldable pub run : List Update → ServerRoute → ServerRoute
run [] r = r
run (add_user uid online ∷ us) r = run us (add_user_id uid online r)
run (remove_user uid ∷ us) r = run us (remove_user_id uid r)
run (add_room room_id ∷ us) r = run us (add_room_id room_id r)
run (remove_room room_id ∷ us) r = run us (remove_room_id room_id r)
