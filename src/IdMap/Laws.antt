-- ===== src/IdMap/Laws.antt =====
-- What is read after a write to an object keyed by ids.
use rivendell.Base.{ℕ, ◌≡◌, refl, none, some, [], ◌∷◌, ◌==◌, if◌then◌else◌, arith}
use rivendell.IdMap.{IdMap, get, put, delete}

module _ {ℓ} {V : Type ℓ} where
  pub get-put :
      (k j : ℕ) (v : V) (m : IdMap V) → get j (put k v m) ≡ (if k == j then some v else get j m)
  unfolding get put
  get-put k j v [] = refl
  get-put k j v ((i, w) ∷ m) = ground (arith, get-put k j v m)

  pub get-delete : (k j : ℕ) (m : IdMap V) → get j (delete k m) ≡ (if k == j then none else get j m)
  unfolding get delete
  get-delete k j [] = ground arith
  get-delete k j ((i, w) ∷ m) = ground (arith, get-delete k j m)

  pub delete_absent : (k : ℕ) (m : IdMap V) → get k m ≡ none → delete k m ≡ m
  unfolding get delete
  delete_absent k [] h = refl
  delete_absent k ((i, w) ∷ m) h = ground (arith, delete_absent k m)

  -- A second write to a key replaces the first.
  pub put-put : (k : ℕ) (v w : V) (m : IdMap V) → put k v (put k w m) ≡ put k v m
  unfolding put
  put-put k v w [] = ground arith
  put-put k v w ((i, u) ∷ m) = ground (arith, put-put k v w m)
