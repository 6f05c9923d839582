-- ===== src/IdMap/Order.antt =====
-- The keys of an object keyed by ids are visited in ascending order, each once.
use rivendell.Base.{ℕ, ◌<◌, ◌≡◌, [], ◌∷◌, ◌==◌, Bool-cases, arith, inl, inr, ltb}
use rivendell.IdMap.{IdMap, put, delete}
use rivendell.IdMap.Entries.{Entries, put-Entries, delete-Entries}

module _ {ℓ} {V : Type ℓ} where
  abbrev pub Above : ℕ → IdMap V → Type 0
  Above k m = Entries (λ j _. k < j) m

  abbrev pub Ascending : IdMap V → Type 0
  Ascending [] = Unit
  Ascending ((k, v) ∷ m) = Above k m × Ascending m

  Above-trans : {i k : ℕ} (m : IdMap V) → i < k → Above k m → Above i m
  Above-trans [] l h = tt
  Above-trans ((j, w) ∷ m) l h = (omega arith, Above-trans m l h.1)

  pub put-Ascending : (k : ℕ) (v : V) (m : IdMap V) → Ascending m → Ascending (put k v m)
  unfolding put
  put-Ascending k v [] h = (tt, tt)
  put-Ascending k v ((j, w) ∷ m) h = elim (Bool-cases (j == k)) [
    | inl e ↦ rw e (let same : j ≡ k = ground arith in rw (same) at h)
    | inr e ↦ rw e (elim (Bool-cases (ltb k j)) [
      | inl f ↦ rw f ((ground arith, Above-trans m (ground arith) h.0), h)
      | inr f ↦ rw f (put-Entries (λ i _. j < i) k v m (ground arith) h.0, put-Ascending k v m h.1)
    ])
  ]

  pub delete-Ascending : (k : ℕ) (m : IdMap V) → Ascending m → Ascending (delete k m)
  unfolding delete
  delete-Ascending k [] h = h
  delete-Ascending k ((j, w) ∷ m) h = elim (Bool-cases (j == k)) [
    | inl e ↦ rw e (delete-Ascending k m h.1)
    | inr e ↦ rw e (delete-Entries (λ i _. j < i) k m h.0, delete-Ascending k m h.1)
  ]
