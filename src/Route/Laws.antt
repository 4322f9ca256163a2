-- ===== src/Route/Laws.antt =====
-- What a route promises: a client is found under its user from `AddClient` to `RemoveClient`, in a
-- room from `AddRoomClient` to `RemoveRoomClient`, and a user is online while a client is found.
use im_service_modify.Prelude.{
  lt→ltb, sym, ℕ, ◌≡◌, refl, ◌∙◌, Bool, true, false, ◌&&◌, List, [], ◌∷◌, Option, none, some, ◌==◌,
  if◌then◌else◌, length, arith, Option-cases, inl, inr, ◌↔◌,
}
use im_service_modify.Maps.{lookup}
use im_service_modify.Route.{
  ClientSet, Route, Call, connect, disconnect, enter_room, leave_room, call, calls, in_set,
  add_client, remove_client, add_room_client, remove_room_client, find_client_set,
  find_room_client_set, is_online, new_route,
}
use im_service_modify.Route.Sets.{
  under, under-add, under-remove, IsTidy, add_under-IsTidy, remove_under-IsTidy, some_member,
}

-- Whether a client is connected for a user, and whether it is in a room, after calls that start
-- with nobody: the last call about it decides.
unfoldable pub connected : ℕ → ℕ → List Call → Bool → Bool
connected uid j [] b = b
connected uid j (connect c ∷ cs) b =
    connected uid j cs (if uid == c.uid && j == c.address then true else b)
connected uid j (disconnect c ∷ cs) b =
    connected uid j cs (if uid == c.uid && j == c.address then false else b)
connected uid j (enter_room room_id c ∷ cs) b = connected uid j cs b
connected uid j (leave_room room_id c ∷ cs) b = connected uid j cs b

unfoldable pub in_room : ℕ → ℕ → List Call → Bool → Bool
in_room room j [] b = b
in_room room j (connect c ∷ cs) b = in_room room j cs b
in_room room j (disconnect c ∷ cs) b = in_room room j cs b
in_room room j (enter_room room_id c ∷ cs) b =
    in_room room j cs (if room == room_id && j == c.address then true else b)
in_room room j (leave_room room_id c ∷ cs) b =
    in_room room j cs (if room == room_id && j == c.address then false else b)

calls-connected :
    (cs : List Call) (r : Route) (uid j : ℕ)
    → under uid j (calls cs r).clients ≡ connected uid j cs (under uid j r.clients)
unfolding calls connected call add_client remove_client add_room_client remove_room_client
calls-connected [] r uid j = refl
calls-connected (connect c ∷ cs) r uid j =
    rw (sym (under-add c.uid uid j c r.clients)) (calls-connected cs (call (connect c) r) uid j)
calls-connected (disconnect c ∷ cs) r uid j =
    rw (sym (under-remove c.uid uid j c r.clients))
      (calls-connected cs (call (disconnect c) r) uid j)
calls-connected (enter_room room_id c ∷ cs) r uid j =
    calls-connected cs (call (enter_room room_id c) r) uid j
calls-connected (leave_room room_id c ∷ cs) r uid j =
    calls-connected cs (call (leave_room room_id c) r) uid j

calls-in_room :
    (cs : List Call) (r : Route) (room j : ℕ)
    → under room j (calls cs r).room_clients ≡ in_room room j cs (under room j r.room_clients)
unfolding calls in_room call add_client remove_client add_room_client remove_room_client
calls-in_room [] r room j = refl
calls-in_room (connect c ∷ cs) r room j = calls-in_room cs (call (connect c) r) room j
calls-in_room (disconnect c ∷ cs) r room j = calls-in_room cs (call (disconnect c) r) room j
calls-in_room (enter_room room_id c ∷ cs) r room j =
    rw (sym (under-add room_id room j c r.room_clients))
      (calls-in_room cs (call (enter_room room_id c) r) room j)
calls-in_room (leave_room room_id c ∷ cs) r room j =
    rw (sym (under-remove room_id room j c r.room_clients))
      (calls-in_room cs (call (leave_room room_id c) r) room j)

calls-IsTidy : (cs : List Call) (r : Route) → IsTidy r.clients → IsTidy (calls cs r).clients
unfolding calls call add_client remove_client add_room_client remove_room_client
calls-IsTidy [] r h = h
calls-IsTidy (connect c ∷ cs) r h =
    calls-IsTidy cs (call (connect c) r) (add_under-IsTidy c.uid c r.clients h)
calls-IsTidy (disconnect c ∷ cs) r h =
    calls-IsTidy cs (call (disconnect c) r) (remove_under-IsTidy c.uid c r.clients h)
calls-IsTidy (enter_room room_id c ∷ cs) r h = calls-IsTidy cs (call (enter_room room_id c) r) h
calls-IsTidy (leave_room room_id c ∷ cs) r h = calls-IsTidy cs (call (leave_room room_id c) r) h

-- What a finder's answer holds.
abbrev pub found_in : ℕ → Option ClientSet → Bool
found_in j none = false
found_in j (some set) = in_set j set

-- On a new route and after any calls, `FindClientSet` of a user has exactly the clients that
-- `AddClient` added for that user and `RemoveClient` has not removed since, and
-- `FindRoomClientSet` of a room exactly those that `AddRoomClient` added to it and
-- `RemoveRoomClient` has not removed since.
pub calls-found :
    (cs : List Call) (appid key j : ℕ)
    → (found_in j (find_client_set key (calls cs (new_route appid))) ≡ connected key j cs false)
      × (found_in j (find_room_client_set key (calls cs (new_route appid)))
          ≡ in_room key j cs false)
unfolding find_client_set find_room_client_set under lookup
calls-found cs appid key j =
    (calls-connected cs (new_route appid) key j, calls-in_room cs (new_route appid) key j)

abbrev pub not_nil : Option ClientSet → Bool
not_nil none = false
not_nil (some set) = true

new_route-IsTidy : (appid : ℕ) → IsTidy (new_route appid).clients
unfolding lookup
new_route-IsTidy appid k set e = absurd (ground arith)

online-not_nil :
    (uid : ℕ) (r : Route) → IsTidy r.clients → is_online uid r ≡ not_nil (find_client_set uid r)
unfolding is_online find_client_set
online-not_nil uid r h = elim (Option-cases (lookup uid r.clients)) [
  | inl e ↦ rw (e, is_online) refl
  | inr (set, e) ↦ rw (e, is_online) (lt→ltb 0 (length set) (h uid set e))
]

online-member :
    (uid : ℕ) (r : Route)
    → IsTidy r.clients
    → is_online uid r ≡ true
    → (j : ℕ) × (under uid j r.clients ≡ true)
unfolding is_online under
online-member uid r h o = elim (Option-cases (lookup uid r.clients)) [
  | inl e ↦ absurd (ground (arith, e, o))
  | inr (set, e) ↦ let (j, i) = some_member set (h uid set e) in (j, rw e i)
]

member-online :
    (uid j : ℕ) (r : Route)
    → IsTidy r.clients
    → under uid j r.clients ≡ true
    → is_online uid r ≡ true
unfolding is_online under
member-online uid j r h i = elim (Option-cases (lookup uid r.clients)) [
  | inl e ↦ absurd (ground (arith, e, i))
  | inr (set, e) ↦ rw (e, is_online) (lt→ltb 0 (length set) (h uid set e))
]

nobody-connected :
    (uid j appid : ℕ) (cs : List Call)
    → connected uid j cs (under uid j (new_route appid).clients) ≡ connected uid j cs false
unfolding under lookup
nobody-connected uid j appid cs = refl

-- On a new route and after any calls, `IsOnline` of a user is true exactly when `AddClient` added
-- some client for the user that `RemoveClient` has not removed since, and `FindClientSet` is nil
-- exactly when it is false: no empty set is kept.
pub calls-online :
    (cs : List Call) (appid uid : ℕ)
    → ((is_online uid (calls cs (new_route appid)) ≡ true)
        ↔ ((j : ℕ) × (connected uid j cs false ≡ true)))
      × (is_online uid (calls cs (new_route appid))
          ≡ not_nil (find_client_set uid (calls cs (new_route appid))))
calls-online cs appid uid =
    let r = calls cs (new_route appid) in
    let tidy = calls-IsTidy cs (new_route appid) (new_route-IsTidy appid) in
    let same : (j : ℕ) → under uid j r.clients ≡ connected uid j cs false =
      λ j. calls-connected cs (new_route appid) uid j ∙ nobody-connected uid j appid cs in
    (
      (
        (λ o. let (j, e) = online-member uid r tidy o in (j, sym (same j) ∙ e)),
        (λ (j, e). member-online uid j r tidy (same j ∙ e)),
      ),
      online-not_nil uid r tidy,
    )
