-- ===== src/StrMap.antt =====
-- A JavaScript object keyed by names that are no integers: entries stay in insertion order.
use rivendell.Base.{String, ◌≡◌, refl, Option, none, some, List, [], ◌∷◌, arith, if◌then◌else◌}
use text.Mathlib.Text.{◌==◌ as str_eq}
use text.Mathlib.TextEquality.{eq_iff}

abbrev pub StrMap {ℓ} : Type ℓ → Type ℓ
StrMap V = List (String × V)

module _ {ℓ} {V : Type ℓ} where
  unfoldable pub get : String → StrMap V → Option V
  get k [] = none
  get k ((j, v) ∷ m) = let rest = get k m in if str_eq j k then some v else rest

  unfoldable pub put : String → V → StrMap V → StrMap V
  put k v [] = (k, v) ∷ []
  put k v ((j, w) ∷ m) = let rest = put k v m in if str_eq j k then (k, v) ∷ m else (j, w) ∷ rest

  unfoldable pub delete : String → StrMap V → StrMap V
  delete k [] = []
  delete k ((j, w) ∷ m) = let rest = delete k m in if str_eq j k then rest else (j, w) ∷ rest

  pub get-put :
      (k j : String) (v : V) (m : StrMap V)
      → get j (put k v m) ≡ (if str_eq k j then some v else get j m)
  unfolding get put
  get-put k j v [] = refl
  get-put k j v ((i, w) ∷ m) = ground (arith, eq_iff k j, eq_iff i k, eq_iff i j, get-put k j v m)

  pub get-delete :
      (k j : String) (m : StrMap V) → get j (delete k m) ≡ (if str_eq k j then none else get j m)
  unfolding get delete
  get-delete k j [] = ground (arith, eq_iff k j)
  get-delete k j ((i, w) ∷ m) = ground (arith, eq_iff k j, eq_iff i k, eq_iff i j, get-delete k j m)
