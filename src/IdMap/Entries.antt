-- ===== src/IdMap/Entries.antt =====
-- Predicates on every entry of an object keyed by ids.
use rivendell.Base.{ℕ, ◌≡◌, some, [], ◌∷◌, ◌==◌, Bool-cases, arith, inl, inr, ltb, subst₂}
use rivendell.IdMap.{IdMap, get, put, delete}

module _ {ℓ κ} {V : Type ℓ} where
  abbrev pub Entries : (ℕ → V → Type κ) → IdMap V → Type κ
  Entries P [] = Unit
  Entries P ((k, v) ∷ m) = P k v × Entries P m

module _ {ℓ κ} {V : Type ℓ} (P : ℕ → V → Type κ) where
  pub Entries-get : (k : ℕ) (m : IdMap V) {v : V} → Entries P m → get k m ≡ some v → P k v
  unfolding get
  Entries-get k [] h e = cc
  Entries-get k ((j, w) ∷ m) {v} h e = elim (Bool-cases (j == k)) [
    | inl t ↦
        let here : w ≡ v = ground arith in let same : j ≡ k = ground arith in subst₂ P same here h.0
    | inr t ↦ Entries-get k m h.1 (ground arith)
  ]

  pub put-Entries : (k : ℕ) (v : V) (m : IdMap V) → P k v → Entries P m → Entries P (put k v m)
  unfolding put
  put-Entries k v [] p h = (p, tt)
  put-Entries k v ((j, w) ∷ m) p h = elim (Bool-cases (j == k)) [
    | inl e ↦ rw e (p, h.1)
    | inr e ↦ rw e (elim (Bool-cases (ltb k j)) [
      | inl f ↦ rw f (p, h)
      | inr f ↦ rw f (h.0, put-Entries k v m p h.1)
    ])
  ]

  pub delete-Entries : (k : ℕ) (m : IdMap V) → Entries P m → Entries P (delete k m)
  unfolding delete
  delete-Entries k [] h = h
  delete-Entries k ((j, w) ∷ m) h = elim (Bool-cases (j == k)) [
    | inl e ↦ rw e (delete-Entries k m h.1)
    | inr e ↦ rw e (h.0, delete-Entries k m h.1)
  ]
