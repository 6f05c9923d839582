-- ===== src/IdMap.antt =====
-- A JavaScript object keyed by ids: `{ ...m, [k]: v }`, `m[k]`, `delete m[k]`, `Object.values(m)`.
-- A loop over such an object visits integer keys in ascending order, and `put` keeps that order.
pub mod Laws
pub mod Entries
pub mod Order
use rivendell.Base.{ℕ, ◌+◌, Option, none, some, List, [], ◌∷◌, ltb, ◌==◌, if◌then◌else◌}

abbrev pub IdMap {ℓ} : Type ℓ → Type ℓ
IdMap V = List (ℕ × V)

module _ {ℓ} {V : Type ℓ} where
  unfoldable pub get : ℕ → IdMap V → Option V
  get k [] = none
  get k ((j, v) ∷ m) = let rest = get k m in if j == k then some v else rest

  unfoldable pub put : ℕ → V → IdMap V → IdMap V
  put k v [] = (k, v) ∷ []
  put k v ((j, w) ∷ m) =
      let rest = put k v m in
      if j == k then (k, v) ∷ m else if ltb k j then (k, v) ∷ (j, w) ∷ m else (j, w) ∷ rest

  unfoldable pub delete : ℕ → IdMap V → IdMap V
  delete k [] = []
  delete k ((j, w) ∷ m) = let rest = delete k m in if j == k then rest else (j, w) ∷ rest

  unfoldable pub values : IdMap V → List V
  values [] = []
  values ((k, v) ∷ m) = v ∷ values m

  unfoldable pub keys : IdMap V → List ℕ
  keys [] = []
  keys ((k, v) ∷ m) = k ∷ keys m

-- `for (const id in m) n += m[id]`
unfoldable pub sum : IdMap ℕ → ℕ
sum [] = 0
sum ((k, n) ∷ m) = n + sum m
