-- ===== src/Route/Sets.antt =====
-- Sets of clients under keys: who is in which, and no empty set is kept.
use im_service_modify.Prelude.{
  ℕ, ◌<◌, ◌≡◌, refl, Bool, true, false, ◌&&◌, [], ◌∷◌, Option, none, some, ◌==◌, if◌then◌else◌,
  length, arith, Option-cases, inl, inr,
}
use im_service_modify.Maps.{lookup, insert, lookup-insert, lookup-remove}
use im_service_modify.Route.{
  Client, ClientSet, SetMap, add_to_set, in_set, remove_from_set, set_or_new, add_under,
  remove_under,
}

-- Whether a client is in the set under a key.
abbrev in_found : ℕ → Option ClientSet → Bool
in_found address none = false
in_found address (some set) = in_set address set

unfoldable pub under : ℕ → ℕ → SetMap → Bool
under key address m = in_found address (lookup key m)

in_set-add :
    (c : Client) (j : ℕ) (set : ClientSet)
    → in_set j (add_to_set c set) ≡ (if j == c.address then true else in_set j set)
unfolding in_set add_to_set
in_set-add c j set = ground (arith, lookup-insert c.address j tt set)

in_set-remove :
    (c : Client) (j : ℕ) (set : ClientSet)
    → in_set j (remove_from_set c set) ≡ (if j == c.address then false else in_set j set)
unfolding in_set remove_from_set
in_set-remove c j set = ground (arith, lookup-remove c.address j set)

in_empty : (j : ℕ) (set : ClientSet) → length set ≡ 0 → in_set j set ≡ false
unfolding in_set lookup
in_empty j [] h = refl
in_empty j (x ∷ set) h = absurd (omega arith)

pub under-add :
    (key k j : ℕ) (c : Client) (m : SetMap)
    → under k j (add_under key c m) ≡ (if k == key && j == c.address then true else under k j m)
unfolding under add_under
under-add key k j c m = elim (Option-cases (lookup key m)) [
  | inl e ↦
      ground
        (arith, e, lookup-insert key k (add_to_set c []) m, in_set-add c j [], in_empty j [] refl)
  | inr (set, e) ↦ ground (arith, e, lookup-insert key k (add_to_set c set) m, in_set-add c j set)
]

pub under-remove :
    (key k j : ℕ) (c : Client) (m : SetMap)
    → under k j (remove_under key c m).1
      ≡ (if k == key && j == c.address then false else under k j m)
unfolding under remove_under
under-remove key k j c m = elim (Option-cases (lookup key m)) [
  | inl e ↦ ground (arith, e)
  | inr (set, e) ↦ ground (
    arith,
    e,
    lookup-insert key k (remove_from_set c set) m,
    lookup-remove key k m,
    in_set-remove c j set,
    in_empty j (remove_from_set c set),
  )
]

-- No empty set is kept.
abbrev pub IsTidy : SetMap → Type 0
IsTidy m = (k : ℕ) (set : ClientSet) → lookup k m ≡ some set → 0 < length set

length-add : (c : Client) (set : ClientSet) → 0 < length (add_to_set c set)
unfolding add_to_set insert
length-add c [] = omega arith
length-add c ((j, u) ∷ set) = ground arith

pub add_under-IsTidy : (key : ℕ) (c : Client) (m : SetMap) → IsTidy m → IsTidy (add_under key c m)
unfolding add_under
add_under-IsTidy key c m h k set e =
    let s = set_or_new (lookup key m) in
    ground (arith, e, h k set, lookup-insert key k (add_to_set c s) m, length-add c s)

pub remove_under-IsTidy :
    (key : ℕ) (c : Client) (m : SetMap) → IsTidy m → IsTidy (remove_under key c m).1
unfolding remove_under
remove_under-IsTidy key c m h k set e = elim (Option-cases (lookup key m)) [
  | inl n ↦ ground (arith, n, e, h k set)
  | inr (s, n) ↦
      ground
        (arith, n, e, h k set, lookup-insert key k (remove_from_set c s) m, lookup-remove key k m)
]

pub some_member : (set : ClientSet) → 0 < length set → (j : ℕ) × (in_set j set ≡ true)
unfolding in_set lookup
some_member [] h = absurd (omega arith)
some_member ((j, u) ∷ set) h = (j, ground arith)
