-- ===== src/Channel/SendLaws.antt =====
-- What is sent for a changed count of a user or of a room.
use im_service_modify.RouteServer.Instance.{
  handle_unsubscribe_room, handle_subscribe_room, handle_unsubscribe, handle_subscribe,
  handle_route_message,
}
use im_service_modify.Message.Body.{Message}
use im_service_modify.RouteServer.Known.{after, Key, group_room, user, change_of}
use im_service_modify.Channel.{
  subscribe_to, unsubscribe_room_from, subscribe_room_to, unsubscribe_from, Channel,
}
use im_service_modify.Channel.Calls.{
  IsApart, IsSilent, Sends, IsHandled, SetsRoom, SetsUser, AreHandled,
}
use im_service_modify.Channel.View.{room_view, user_view, IsCounted, view}
use im_service_modify.Prelude.{
  inr, Bool-cases, inl, ◌⊎◌, true, not, none, some, ap, ◌&&◌, ◌==◌, ◌∙◌, ◌∷◌, refl, [],
  if◌then◌else◌, sym, arith, ◌≡◌, List, Option, ℕ,
}

SetsUser-IsCounted :
    (appid uid : ℕ) (o : Option ℕ) (c c' : Channel)
    → SetsUser appid uid o c c'
    → IsCounted c
    → IsCounted c'
SetsUser-IsCounted appid uid o c c' s i = record {
  users = λ a u n e. grind (arith, s.users a u, s.positive n, i.users a u n, e);
  rooms = λ a j n e. i.rooms a j n (sym (s.rooms a j) ∙ e);
}

SetsRoom-IsCounted :
    (appid room_id : ℕ) (o : Option ℕ) (c c' : Channel)
    → SetsRoom appid room_id o c c'
    → IsCounted c
    → IsCounted c'
SetsRoom-IsCounted appid room_id o c c' s i = record {
  users = λ a u n e. i.users a u n (sym (s.users a u) ∙ e);
  rooms = λ a j n e. grind (arith, s.rooms a j, s.positive n, i.rooms a j n, e);
}

SetsUser-view :
    (appid uid : ℕ) (o : Option ℕ) (c c' : Channel) (a u : ℕ)
    → SetsUser appid uid o c c'
    → view (user a u) c' ≡ (if a == appid && u == uid then user_view o else view (user a u) c)
unfolding view
SetsUser-view appid uid o c c' a u s = ground (arith, s.users a u)

SetsRoom-view :
    (appid room_id : ℕ) (o : Option ℕ) (c c' : Channel) (a j : ℕ)
    → SetsRoom appid room_id o c c'
    → view (group_room a j) c'
      ≡ (if a == appid && j == room_id then room_view o else view (group_room a j) c)
unfolding view
SetsRoom-view appid room_id o c c' a j s = ground (arith, s.rooms a j)

SetsUser-tells :
    (appid uid : ℕ) (o : Option ℕ) (ms : List Message) (c c' : Channel)
    → SetsUser appid uid o c c'
    → ((a u : ℕ)
        → after ms (user a u) (view (user a u) c)
          ≡ (if a == appid && u == uid then user_view o else view (user a u) c))
    → ((a j : ℕ) → after ms (group_room a j) (view (group_room a j) c) ≡ view (group_room a j) c)
    → (key : Key) → after ms key (view key c) ≡ view key c'
SetsUser-tells appid uid o ms c c' s f g (user a u) =
    f a u ∙ sym (SetsUser-view appid uid o c c' a u s)
SetsUser-tells appid uid o ms c c' s f g (group_room a j) =
    g a j ∙ unfold view in ap room_view (sym (s.rooms a j))

SetsRoom-tells :
    (appid room_id : ℕ) (o : Option ℕ) (ms : List Message) (c c' : Channel)
    → SetsRoom appid room_id o c c'
    → ((a j : ℕ)
        → after ms (group_room a j) (view (group_room a j) c)
          ≡ (if a == appid && j == room_id then room_view o else view (group_room a j) c))
    → ((a u : ℕ) → after ms (user a u) (view (user a u) c) ≡ view (user a u) c)
    → (key : Key) → after ms key (view key c) ≡ view key c'
SetsRoom-tells appid room_id o ms c c' s f g (group_room a j) =
    f a j ∙ sym (SetsRoom-view appid room_id o c c' a j s)
SetsRoom-tells appid room_id o ms c c' s f g (user a u) =
    g a u ∙ unfold view in ap user_view (sym (s.users a u))

-- Nothing is sent where the view stays, one message where it changes.
pub Sends-nothing :
    (k : Key) (c c' : Channel)
    → c'.wt ≡ c.wt
    → ((key : Key) → after [] key (view key c) ≡ view key c')
    → IsCounted c'
    → Sends k c ([], c')
unfolding AreHandled IsSilent IsApart
Sends-nothing k c c' w t i = record {
  waiting = w;
  tells = t;
  counted = i;
  handled = tt;
  own = λ key. inl tt;
  apart = tt;
}

pub Sends-one :
    (k : Key) (m : Message) (c c' : Channel)
    → c'.wt ≡ c.wt
    → ((key : Key) → after (m ∷ []) key (view key c) ≡ view key c')
    → IsCounted c'
    → IsHandled m
    → ((key : Key) → (change_of m key ≡ none) ⊎ (key ≡ k))
    → Sends k c (m ∷ [], c')
unfolding AreHandled IsSilent IsApart
Sends-one k m c c' w t i h o = record {
  waiting = w;
  tells = t;
  counted = i;
  handled = (h, tt);
  own = λ key. elim (o key) [ inl e ↦ inl (e, tt) | inr e ↦ inr e ];
  apart = (λ key. inr tt, tt);
}

both_eq : (a b x y : ℕ) → (a == b && x == y) ≡ true → (a ≡ b) × (x ≡ y)
both_eq a b x y e = (ground (arith, e), ground (arith, e))

-- A message is about the user or room that it names, and about no other.
subscribe_to-own :
    (appid uid online : ℕ) (key : Key)
    → (change_of (subscribe_to appid uid online) key ≡ none) ⊎ (key ≡ user appid uid)
unfolding change_of
subscribe_to-own appid uid online (group_room a j) = inl refl
subscribe_to-own appid uid online (user a u) = elim (Bool-cases (a == appid && u == uid)) [
  | inl e ↦ let (p, q) = both_eq a appid u uid e in inr (cc (p, q))
  | inr e ↦ inl (ground (arith, e))
]

unsubscribe_from-own :
    (appid uid : ℕ) (key : Key)
    → (change_of (unsubscribe_from appid uid) key ≡ none) ⊎ (key ≡ user appid uid)
unfolding change_of
unsubscribe_from-own appid uid (group_room a j) = inl refl
unsubscribe_from-own appid uid (user a u) = elim (Bool-cases (a == appid && u == uid)) [
  | inl e ↦ let (p, q) = both_eq a appid u uid e in inr (cc (p, q))
  | inr e ↦ inl (ground (arith, e))
]

subscribe_room_to-own :
    (appid room_id : ℕ) (key : Key)
    → (change_of (subscribe_room_to appid room_id) key ≡ none) ⊎ (key ≡ group_room appid room_id)
unfolding change_of
subscribe_room_to-own appid room_id (user a u) = inl refl
subscribe_room_to-own appid room_id (group_room a j) =
    elim (Bool-cases (a == appid && j == room_id)) [
      | inl e ↦ let (p, q) = both_eq a appid j room_id e in inr (cc (p, q))
      | inr e ↦ inl (ground (arith, e))
    ]

unsubscribe_room_from-own :
    (appid room_id : ℕ) (key : Key)
    → (change_of (unsubscribe_room_from appid room_id) key ≡ none)
      ⊎ (key ≡ group_room appid room_id)
unfolding change_of
unsubscribe_room_from-own appid room_id (user a u) = inl refl
unsubscribe_room_from-own appid room_id (group_room a j) =
    elim (Bool-cases (a == appid && j == room_id)) [
      | inl e ↦ let (p, q) = both_eq a appid j room_id e in inr (cc (p, q))
      | inr e ↦ inl (ground (arith, e))
    ]

pub SetsUser-silent :
    (appid uid : ℕ) (o : Option ℕ) (c c' : Channel)
    → SetsUser appid uid o c c'
    → user_view o ≡ view (user appid uid) c
    → IsCounted c
    → Sends (user appid uid) c ([], c')
unfolding after
SetsUser-silent appid uid o c c' s e i =
    Sends-nothing (user appid uid) c c' s.waiting
      (SetsUser-tells appid uid o [] c c' s (λ a u. grind (arith, e)) (λ a j. refl))
      (SetsUser-IsCounted appid uid o c c' s i)

pub SetsUser-subscribe :
    (appid uid online : ℕ) (o : Option ℕ) (c c' : Channel)
    → SetsUser appid uid o c c'
    → user_view o ≡ some (not (online == 0))
    → IsCounted c
    → Sends (user appid uid) c (subscribe_to appid uid online ∷ [], c')
unfolding after change_of IsHandled handle_route_message handle_subscribe
SetsUser-subscribe appid uid online o c c' s e i =
    Sends-one (user appid uid) (subscribe_to appid uid online) c c' s.waiting
      (SetsUser-tells appid uid o (subscribe_to appid uid online ∷ []) c c' s
        (λ a u. grind (arith, e)) (λ a j. refl))
      (SetsUser-IsCounted appid uid o c c' s i) (λ apps. (_, refl))
      (subscribe_to-own appid uid online)

pub SetsUser-unsubscribe :
    (appid uid : ℕ) (c c' : Channel)
    → SetsUser appid uid none c c'
    → IsCounted c
    → Sends (user appid uid) c (unsubscribe_from appid uid ∷ [], c')
unfolding after change_of IsHandled handle_route_message handle_unsubscribe
SetsUser-unsubscribe appid uid c c' s i =
    Sends-one (user appid uid) (unsubscribe_from appid uid) c c' s.waiting
      (SetsUser-tells appid uid none (unsubscribe_from appid uid ∷ []) c c' s (λ a u. grind arith)
        (λ a j. refl))
      (SetsUser-IsCounted appid uid none c c' s i) (λ apps. (_, refl))
      (unsubscribe_from-own appid uid)

pub SetsRoom-silent :
    (appid room_id : ℕ) (o : Option ℕ) (c c' : Channel)
    → SetsRoom appid room_id o c c'
    → room_view o ≡ view (group_room appid room_id) c
    → IsCounted c
    → Sends (group_room appid room_id) c ([], c')
unfolding after
SetsRoom-silent appid room_id o c c' s e i =
    Sends-nothing (group_room appid room_id) c c' s.waiting
      (SetsRoom-tells appid room_id o [] c c' s (λ a j. grind (arith, e)) (λ a u. refl))
      (SetsRoom-IsCounted appid room_id o c c' s i)

pub SetsRoom-subscribe :
    (appid room_id n : ℕ) (c c' : Channel)
    → SetsRoom appid room_id (some n) c c'
    → IsCounted c
    → Sends (group_room appid room_id) c (subscribe_room_to appid room_id ∷ [], c')
unfolding after change_of IsHandled handle_route_message handle_subscribe_room
SetsRoom-subscribe appid room_id n c c' s i =
    Sends-one (group_room appid room_id) (subscribe_room_to appid room_id) c c' s.waiting
      (SetsRoom-tells appid room_id (some n) (subscribe_room_to appid room_id ∷ []) c c' s
        (λ a j. grind arith) (λ a u. refl))
      (SetsRoom-IsCounted appid room_id (some n) c c' s i) (λ apps. (_, refl))
      (subscribe_room_to-own appid room_id)

pub SetsRoom-unsubscribe :
    (appid room_id : ℕ) (c c' : Channel)
    → SetsRoom appid room_id none c c'
    → IsCounted c
    → Sends (group_room appid room_id) c (unsubscribe_room_from appid room_id ∷ [], c')
unfolding after change_of IsHandled handle_route_message handle_unsubscribe_room
SetsRoom-unsubscribe appid room_id c c' s i =
    Sends-one (group_room appid room_id) (unsubscribe_room_from appid room_id) c c' s.waiting
      (SetsRoom-tells appid room_id none (unsubscribe_room_from appid room_id ∷ []) c c' s
        (λ a j. grind arith) (λ a u. refl))
      (SetsRoom-IsCounted appid room_id none c c' s i) (λ apps. (_, refl))
      (unsubscribe_room_from-own appid room_id)
