-- ===== src/Sort.antt =====
-- `Array.prototype.sort`, which is stable: `le a b` says that the comparator gives at most 0.
pub mod Laws
use rivendell.Base.{
  ℕ, zero, suc, ◌+◌, ◌-◌, ◌*◌, ◌/◌, ◌%◌, ◌^◌, ◌≤◌, ◌<◌, min, max, String, ◌≡◌, refl, sym, ap, ap₂,
  subst, subst₂, ◌∙◌, ◌≢◌, ◌↔◌, ◌⊎◌, inl, inr, Bool, true, false, not, ◌&&◌, ◌||◌, Option, none,
  some, List, [], ◌∷◌, ◌++◌, map, arith, ltb, leb, ◌==◌, if◌then◌else◌, ltb→lt, leb→le, ==_iff,
  ==_refl, Bool-cases, get_or, or_else, is_some, Option-cases, same_id, same_id_refl, matches_id,
  length, get_elem?, filter, any, find, All, length-append, contains, append_nil, append_assoc,
}

module _ {ℓ} {A : Type ℓ} (le : A → A → Bool) where
  -- An earlier element stays before those that compare equal to it.
  unfoldable pub insert : A → List A → List A
  insert x [] = x ∷ []
  insert x (y ∷ ys) = let rest = insert x ys in if le x y then x ∷ y ∷ ys else y ∷ rest

  unfoldable pub sort : List A → List A
  sort [] = []
  sort (x ∷ xs) = insert x (sort xs)
