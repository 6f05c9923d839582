-- ===== src/JsMap.antt =====
-- A JavaScript Map with numeric keys: its entries in the order in which they were first set.
use rivendell.Base.{ℕ, ◌≡◌, refl, Option, none, some, List, [], ◌∷◌, arith, ◌==◌, if◌then◌else◌}

abbrev pub JsMap {ℓ} : Type ℓ → Type ℓ
JsMap V = List (ℕ × V)

module _ {ℓ} {V : Type ℓ} where
  unfoldable pub get : ℕ → JsMap V → Option V
  get k [] = none
  get k ((j, v) ∷ m) = if j == k then some v else get k m

  -- `m.set(k, v)`: an entry that is there keeps its place.
  unfoldable pub set : ℕ → V → JsMap V → JsMap V
  set k v [] = (k, v) ∷ []
  set k v ((j, w) ∷ m) = let rest = set k v m in if j == k then (k, v) ∷ m else (j, w) ∷ rest

  unfoldable pub delete : ℕ → JsMap V → JsMap V
  delete k [] = []
  delete k ((j, w) ∷ m) = let rest = delete k m in if j == k then rest else (j, w) ∷ rest

  pub get-set :
      (k j : ℕ) (v : V) (m : JsMap V) → get j (set k v m) ≡ (if k == j then some v else get j m)
  unfolding get set
  get-set k j v [] = refl
  get-set k j v ((i, w) ∷ m) = ground (arith, get-set k j v m)

  pub get-delete : (k j : ℕ) (m : JsMap V) → get j (delete k m) ≡ (if k == j then none else get j m)
  unfolding get delete
  get-delete k j [] = ground arith
  get-delete k j ((i, w) ∷ m) = ground (arith, get-delete k j m)
