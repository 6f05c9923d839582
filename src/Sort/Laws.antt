-- ===== src/Sort/Laws.antt =====
-- Sorting permutes, sorts by a total preorder, and leaves a sorted list alone.
use mathlib.Core.List.{Perm}
use mathlib.Core.List.Perm
use rivendell.Base.{◌≡◌, refl, inl, inr, Bool, true, false, List, [], ◌∷◌, Bool-cases, All}
use rivendell.Sort.{insert, sort}

module _ {ℓ} {A : Type ℓ} (le : A → A → Bool) where
  pub insert-perm : (x : A) (ys : List A) → Perm (insert le x ys) (x ∷ ys)
  unfolding insert
  insert-perm x [] = Perm.refl (x ∷ [])
  insert-perm x (y ∷ ys) = elim (Bool-cases (le x y)) [
    | inl e ↦ rw e (Perm.refl (x ∷ y ∷ ys))
    | inr e ↦ rw e (Perm.trans (Perm.cons y (insert-perm x ys)) (Perm.swap x y ys))
  ]

  pub sort-perm : (xs : List A) → Perm (sort le xs) xs
  unfolding sort
  sort-perm [] = Perm.refl []
  sort-perm (x ∷ xs) = Perm.trans (insert-perm x (sort le xs)) (Perm.cons x (sort-perm xs))

  module _ {κ} (P : A → Type κ) where
    pub insert-All : (x : A) (ys : List A) → P x → All P ys → All P (insert le x ys)
    unfolding insert
    insert-All x [] p h = (p, tt)
    insert-All x (y ∷ ys) p h = elim (Bool-cases (le x y)) [
      | inl e ↦ rw e (p, h)
      | inr e ↦ rw e (h.0, insert-All x ys p h.1)
    ]

    pub sort-All : (xs : List A) → All P xs → All P (sort le xs)
    unfolding sort
    sort-All [] h = tt
    sort-All (x ∷ xs) h = insert-All x (sort le xs) h.0 (sort-All xs h.1)

  -- Every element is at most each later one.
  abbrev pub IsSorted : List A → Type 0
  IsSorted [] = Unit
  IsSorted (x ∷ xs) = All (λ y. le x y ≡ true) xs × IsSorted xs

  module _ (total : (a b : A) → le a b ≡ false → le b a ≡ true)
      (trans : (a b c : A) → le a b ≡ true → le b c ≡ true → le a c ≡ true) where
    All-trans :
        (x y : A) (zs : List A)
        → le x y ≡ true
        → All (λ z. le y z ≡ true) zs
        → All (λ z. le x z ≡ true) zs
    All-trans x y [] l h = tt
    All-trans x y (z ∷ zs) l h = (trans x y z l h.0, All-trans x y zs l h.1)

    insert-IsSorted : (x : A) (ys : List A) → IsSorted ys → IsSorted (insert le x ys)
    unfolding insert
    insert-IsSorted x [] h = (tt, tt)
    insert-IsSorted x (y ∷ ys) h = elim (Bool-cases (le x y)) [
      | inl e ↦ rw e ((e, All-trans x y ys e h.0), h)
      | inr e ↦
          rw e (insert-All (λ z. le y z ≡ true) x ys (total x y e) h.0, insert-IsSorted x ys h.1)
    ]

    pub sort-IsSorted : (xs : List A) → IsSorted (sort le xs)
    unfolding sort
    sort-IsSorted [] = tt
    sort-IsSorted (x ∷ xs) = insert-IsSorted x (sort le xs) (sort-IsSorted xs)

  insert_least : (x : A) (ys : List A) → All (λ y. le x y ≡ true) ys → insert le x ys ≡ x ∷ ys
  unfolding insert
  insert_least x [] h = refl
  insert_least x (y ∷ ys) h = rw h.0

  pub sort_of_IsSorted : (xs : List A) → IsSorted xs → sort le xs ≡ xs
  unfolding sort
  sort_of_IsSorted [] h = refl
  sort_of_IsSorted (x ∷ xs) h = rw (sort_of_IsSorted xs h.1) (insert_least x xs h.0)
