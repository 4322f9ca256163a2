-- ===== src/Maps.antt =====
-- Maps of Go with an integer key, as association lists: a present key has one entry. `maps` are the
-- laws of looking up.
use im_service_modify.Prelude.{
  Bool-cases, inl, inr, refl, ◌∙◌, ℕ, ◌≡◌, List, [], ◌∷◌, ◌==◌, if◌then◌else◌, Option, none, some,
  arith,
}

module _ {ℓ} {A : Type ℓ} where
  unfoldable pub lookup : ℕ → List (ℕ × A) → Option A
  lookup k [] = none
  lookup k ((j, v) ∷ m) = let rest = lookup k m in if k == j then some v else rest

  unfoldable pub insert : ℕ → A → List (ℕ × A) → List (ℕ × A)
  insert k v [] = (k, v) ∷ []
  insert k v ((j, w) ∷ m) = let rest = insert k v m in if k == j then (j, v) ∷ m else (j, w) ∷ rest

  -- `delete` of Go
  unfoldable pub remove : ℕ → List (ℕ × A) → List (ℕ × A)
  remove k [] = []
  remove k ((j, w) ∷ m) = let rest = remove k m in if k == j then rest else (j, w) ∷ rest

  pub lookup-insert :
      (k j : ℕ) (v : A) (m : List (ℕ × A))
      → lookup j (insert k v m) ≡ (if j == k then some v else lookup j m)
  unfolding lookup insert
  lookup-insert k j v [] = ground arith
  lookup-insert k j v ((i, w) ∷ m) = ground (arith, lookup-insert k j v m)

  pub lookup-remove :
      (k j : ℕ) (m : List (ℕ × A)) → lookup j (remove k m) ≡ (if j == k then none else lookup j m)
  unfolding lookup remove
  lookup-remove k j [] = ground arith
  lookup-remove k j ((i, w) ∷ m) = ground (arith, lookup-remove k j m)

-- A present key has one entry.
unfoldable pub IsMap {ℓ} : {A : Type ℓ} → List (ℕ × A) → Type ℓ
IsMap [] = Unit
IsMap ((k, v) ∷ m) = (lookup k m ≡ none) × IsMap m

module _ {ℓ} {A : Type ℓ} where
  pub insert-IsMap : (k : ℕ) (v : A) (m : List (ℕ × A)) → IsMap m → IsMap (insert k v m)
  unfolding IsMap insert lookup
  insert-IsMap k v [] i = (refl, tt)
  insert-IsMap k v ((j, w) ∷ m) (h, i) = elim (Bool-cases (k == j)) [
    | inl e ↦ rw e (h, i)
    | inr e ↦ rw e (lookup-insert k j v m ∙ ground (arith, e, h), insert-IsMap k v m i)
  ]

  pub remove-IsMap : (k : ℕ) (m : List (ℕ × A)) → IsMap m → IsMap (remove k m)
  unfolding IsMap remove lookup
  remove-IsMap k [] i = tt
  remove-IsMap k ((j, w) ∷ m) (h, i) = elim (Bool-cases (k == j)) [
    | inl e ↦ rw e (remove-IsMap k m i)
    | inr e ↦ rw e (lookup-remove k j m ∙ ground (arith, e, h), remove-IsMap k m i)
  ]

pub ruleset maps = (lookup-insert, lookup-remove)
