-- ===== src/Channel/CloseLaws.antt =====
-- Closing a connection sends messages that tell what it changed.
use im_service_modify.Channel.SendLaws.{
  SetsUser-silent, SetsUser-subscribe, Sends-nothing, SetsUser-unsubscribe,
}
use im_service_modify.Channel.CallLaws.{set_users-SetsUser}
use im_service_modify.Maps.{lookup-remove, lookup-insert, lookup}
use im_service_modify.Channel.View.{
  view, remove_subscribe-absent, remove_subscribe-present, set_users, user_count, user_view,
  IsCounted,
}
use im_service_modify.RouteServer.Known.{user, after}
use im_service_modify.Channel.Counts.{
  total_count-pack, online_count-pack, online_count-bound, minus_one, total_count-bound, pack,
  online_count, total_count,
}
use im_service_modify.Channel.Calls.{close_user, Sends, SetsUser, IsAllowed}
use im_service_modify.Channel.{find_or_add_subscriber, Channel, unsubscribe, remove_connection}
use im_service_modify.Prelude.{
  sym, ap, ◌&&◌, ==→eq, inr, Option-cases, inl, Bool-cases, ◌∙◌, refl, ◌-◌, false, ◌==◌, arith, ltb,
  none, some, true, if◌then◌else◌, ◌<◌, ◌≡◌, List, Option, ℕ, Bool,
}

-- The count of a user with one connection less.
unfoldable less : Bool → ℕ → Option ℕ
less online n =
    if ltb 1 (total_count n)
    then some (pack (if online then online_count n - 1 else online_count n) (total_count n - 1))
    else none

lookup-remove_connection :
    (uid u n : ℕ) (online : Bool) (m : List (ℕ × ℕ))
    → (online ≡ true → 0 < online_count n)
    → lookup u (remove_connection uid online n m) ≡ (if u == uid then less online n else lookup u m)
unfolding remove_connection less
lookup-remove_connection uid u n true m g = grind (
  arith,
  minus_one (online_count n) (g refl) (online_count-bound n),
  lookup-insert uid u (pack (online_count n - 1) (total_count n - 1)) m,
  lookup-remove uid u m,
)
lookup-remove_connection uid u n false m g = grind (
  arith,
  lookup-insert uid u (pack (online_count n) (total_count n - 1)) m,
  lookup-remove uid u m,
)

less-positive : (online : Bool) (n k : ℕ) → less online n ≡ some k → 0 < total_count k
unfolding less
less-positive true n k e = ground (
  arith,
  e,
  total_count-bound n,
  online_count-bound n,
  total_count-pack (online_count n - 1) (total_count n - 1),
)
less-positive false n k e = ground (
  arith,
  e,
  total_count-bound n,
  online_count-bound n,
  total_count-pack (online_count n) (total_count n - 1),
)

close_user-SetsUser :
    (appid uid n : ℕ) (online : Bool) (o : Option ℕ) (c : Channel)
    → less online n ≡ o
    → (online ≡ true → 0 < online_count n)
    → SetsUser appid uid o c
        (set_users appid (remove_connection uid online n (find_or_add_subscriber appid c).uids) c)
close_user-SetsUser appid uid n online o c e g =
    set_users-SetsUser appid uid (λ k m. remove_connection k online n m) o c
      (λ u m. lookup-remove_connection uid u n online m g ∙ rw e refl)
      (λ k e'. less-positive online n k (e ∙ e'))

-- The last connection, the last online one, and any other.
less-last : (online : Bool) (n : ℕ) → total_count n ≡ 1 → less online n ≡ none
unfolding less
less-last online n h = ground (arith, h)

less-offline :
    (online : Bool) (n : ℕ)
    → (ltb 1 (total_count n) && (online_count n == 1 && online)) ≡ true
    → user_view (less online n) ≡ some false
unfolding less
less-offline true n h =
    ground
      (arith, h, total_count-bound n, online_count-pack (online_count n - 1) (total_count n - 1))
less-offline false n h = absurd (ground (arith, h))

less-same :
    (online : Bool) (n : ℕ)
    → 1 < total_count n
    → (online ≡ true → 0 < online_count n)
    → (ltb 1 (total_count n) && (online_count n == 1 && online)) ≡ false
    → user_view (less online n) ≡ some (ltb 0 (online_count n))
unfolding less
less-same true n h g y = ground (
  arith,
  h,
  g refl,
  y,
  total_count-bound n,
  online_count-bound n,
  online_count-pack (online_count n - 1) (total_count n - 1),
)
less-same false n h g y = ground (
  arith,
  h,
  total_count-bound n,
  online_count-bound n,
  online_count-pack (online_count n) (total_count n - 1),
)

unsubscribe-present :
    (appid uid n : ℕ) (online : Bool) (c : Channel)
    → IsCounted c
    → user_count appid uid c ≡ some n
    → (online ≡ true → 0 < online_count n)
    → Sends (user appid uid) c (unsubscribe appid uid online c)
unfolding unsubscribe
unsubscribe-present appid uid n online c i e g =
    let c' =
      set_users appid (remove_connection uid online n (find_or_add_subscriber appid c).uids) c in
    let s : (o : Option ℕ) → less online n ≡ o → SetsUser appid uid o c c' =
      λ o e'. close_user-SetsUser appid uid n online o c e' g in
    rw (remove_subscribe-present appid uid n online c e) (elim (Bool-cases (total_count n == 1)) [
      | inl z ↦ rw z (
          SetsUser-unsubscribe appid uid c c'
            (s none (less-last online n (==→eq (total_count n) 1 z))) i)
      | inr z ↦ elim (Bool-cases (ltb 1 (total_count n) && (online_count n == 1 && online))) [
        | inl y ↦
            rw (z, y)
              (SetsUser-subscribe appid uid 0 (less online n) c c' (s (less online n) refl)
                (less-offline online n y) i)
        | inr y ↦
            rw (z, y)
              (SetsUser-silent appid uid (less online n) c c' (s (less online n) refl)
                (less-same online n (ground (arith, z, i.users appid uid n e)) g y
                  ∙ unfold view in ap user_view (sym e))
                i)
      ]
    ])

pub unsubscribe-Sends :
    (appid uid : ℕ) (online : Bool) (c : Channel)
    → IsCounted c
    → IsAllowed (close_user appid uid online) c
    → Sends (user appid uid) c (unsubscribe appid uid online c)
unfolding IsAllowed unsubscribe after
unsubscribe-Sends appid uid online c i g = elim (Option-cases (user_count appid uid c)) [
  | inr (n, e) ↦ unsubscribe-present appid uid n online c i e (g n e)
  | inl e ↦
      rw (remove_subscribe-absent appid uid online c e)
        (Sends-nothing (user appid uid) c c refl (λ key. refl) i)
]
