-- ===== src/State/Channels/Navigation.antt =====
-- Keyboard navigation lands on the nearest channel.
use rivendell.Base.{
  ℕ, zero, suc, ◌+◌, ◌≤◌, ◌<◌, ◌≡◌, refl, sym, ap, subst, ◌∙◌, inl, inr, Bool, true, false, Option,
  none, some, List, [], ◌∷◌, arith, ◌==◌, ==_iff, Bool-cases, Option-cases, length, get_elem?,
}
use rivendell.IdMap.{IdMap}
use rivendell.State.Channels.{
  index_of, scan_up, scan_down, has_count, drop, Delta, up, down, next_unread_channel_id,
}

module _ (truthy : ℕ → Bool) (order : List ℕ) where
  -- No id at an index from `lo` up to, and without, `hi` is unread.
  abbrev pub Quiet : ℕ → ℕ → Type 0
  Quiet lo hi = (j x : ℕ) → lo ≤ j → j < hi → get_elem? order j ≡ some x → truthy x ≡ false

  -- The first unread id at an index from `lo`, or none.
  abbrev pub FirstFrom : ℕ → Option ℕ → Type 0
  FirstFrom lo none = Quiet lo (length order)
  FirstFrom lo (some id) =
      (k : ℕ) × (lo ≤ k) × (get_elem? order k ≡ some id) × (truthy id ≡ true) × Quiet lo k

  -- The last unread id at an index below `hi`, or none.
  abbrev pub LastBefore : ℕ → Option ℕ → Type 0
  LastBefore hi none = Quiet 0 hi
  LastBefore hi (some id) =
      (k : ℕ) × (k < hi) × (get_elem? order k ≡ some id) × (truthy id ≡ true) × Quiet (suc k) hi

  -- What holds of the id at one index, if there is one.
  abbrev QuietAt : ℕ → Type 0
  QuietAt k = (x : ℕ) → get_elem? order k ≡ some x → truthy x ≡ false

  Quiet-suc : (lo hi : ℕ) → Quiet lo hi → QuietAt hi → Quiet lo (suc hi)
  Quiet-suc lo hi q at j x l h e = elim (Bool-cases (j == hi)) [
    | inl t ↦ at x (subst (λ k. get_elem? order k ≡ some x) ((==_iff j hi).0 t) e)
    | inr t ↦ q j x l (ground arith) e
  ]

  Quiet-cons : (lo hi : ℕ) → Quiet (suc lo) hi → QuietAt lo → Quiet lo hi
  Quiet-cons lo hi q at j x l h e = elim (Bool-cases (j == lo)) [
    | inl t ↦ at x (subst (λ k. get_elem? order k ≡ some x) ((==_iff j lo).0 t) e)
    | inr t ↦ q j x (ground arith) h e
  ]

  LastBefore-suc : (hi : ℕ) (r : Option ℕ) → LastBefore hi r → QuietAt hi → LastBefore (suc hi) r
  LastBefore-suc hi none q at = Quiet-suc 0 hi q at
  LastBefore-suc hi (some id) (k, l, e, t, q) at = (k, omega arith, e, t, Quiet-suc (suc k) hi q at)

  FirstFrom-cons : (lo : ℕ) (r : Option ℕ) → FirstFrom (suc lo) r → QuietAt lo → FirstFrom lo r
  FirstFrom-cons lo none q at = Quiet-cons lo (length order) q at
  FirstFrom-cons lo (some id) (k, l, e, t, q) at = (k, omega arith, e, t, Quiet-cons lo k q at)

  scan_up-LastBefore : (hi : ℕ) → LastBefore hi (scan_up truthy order hi)
  unfolding scan_up
  scan_up-LastBefore zero = λ j x l h e. absurd (omega arith)
  scan_up-LastBefore (suc k) = elim (Option-cases (get_elem? order k)) [
    | inl e ↦ rw (e, scan_up) (LastBefore-suc k _ (scan_up-LastBefore k) (λ x f. cc))
    | inr f ↦ elim (Bool-cases (truthy f.0)) [
      | inl t ↦ rw (f.1, scan_up) (rw t (k, omega arith, f.1, t, λ j x l h e. absurd (omega arith)))
      | inr t ↦
          rw (f.1, scan_up) (rw t (LastBefore-suc k _ (scan_up-LastBefore k) (λ x e. ground arith)))
    ]
  ]

  scan_down-FirstFrom :
      (lo : ℕ) (xs : List ℕ)
      → ((k : ℕ) → get_elem? xs k ≡ get_elem? order (k + lo))
      → length order ≤ length xs + lo
      → FirstFrom lo (scan_down truthy xs)
  unfolding scan_down
  scan_down-FirstFrom lo [] same long = λ j x l h e. absurd (omega arith)
  scan_down-FirstFrom lo (id ∷ ids) same long =
      let here : get_elem? order lo ≡ some id =
        let e : 0 + lo ≡ lo = omega arith in sym (same 0 ∙ ap (get_elem? order) e) in
      elim (Bool-cases (truthy id)) [
        | inl t ↦ rw t (lo, omega arith, here, t, λ j x l h e. absurd (omega arith))
        | inr t ↦ rw t (
            FirstFrom-cons lo _
              (scan_down-FirstFrom (suc lo) ids
                (λ k.
                  let e : suc k + lo ≡ k + suc lo = omega arith in
                  same (suc k) ∙ ap (get_elem? order) e)
                (omega arith))
              (λ x e. ground arith))
      ]

get_elem?-drop : (n k : ℕ) (xs : List ℕ) → get_elem? (drop n xs) k ≡ get_elem? xs (k + n)
get_elem?-drop zero k xs = let e : k ≡ k + 0 = omega arith in ap (get_elem? xs) e
get_elem?-drop (suc n) k [] = refl
get_elem?-drop (suc n) k (x ∷ xs) =
    let e : suc (k + n) ≡ k + suc n = omega arith in
    get_elem?-drop n k xs ∙ ap (get_elem? (x ∷ xs)) e

length-drop : (n : ℕ) (xs : List ℕ) → length xs ≤ length (drop n xs) + n
length-drop zero xs = omega arith
length-drop (suc n) [] = omega arith
length-drop (suc n) (x ∷ xs) = omega (arith, length-drop n xs)

-- What the move is measured from: the active channel, or an end of the list.
abbrev pub Nearest : (ℕ → Bool) → List ℕ → Delta → Option ℕ → Option ℕ → Type 0
Nearest truthy order down none = FirstFrom truthy order 0
Nearest truthy order down (some i) = FirstFrom truthy order (suc i)
Nearest truthy order up none = LastBefore truthy order (length order)
Nearest truthy order up (some i) = LastBefore truthy order i

-- The move ends at the nearest unread channel in its direction, with none unread in between, and
-- nowhere only if none that way is unread.
pub next_unread_channel_id-Nearest :
    (order : List ℕ) (active : Option ℕ) (unread : IdMap ℕ) (delta : Delta)
    → Nearest
        (has_count unread)
        order
        delta
        (index_of order active)
        (next_unread_channel_id order active unread delta)
unfolding next_unread_channel_id
next_unread_channel_id-Nearest order active unread down =
    elim (Option-cases (index_of order active)) [
      | inl e ↦
          rw (e, next_unread_channel_id)
            (scan_down-FirstFrom (has_count unread) order 0 order
              (λ k. let z : k ≡ k + 0 = omega arith in ap (get_elem? order) z) (omega arith))
      | inr f ↦
          rw (f.1, next_unread_channel_id)
            (scan_down-FirstFrom (has_count unread) order (suc f.0) (drop (suc f.0) order)
              (λ k. get_elem?-drop (suc f.0) k order) (length-drop (suc f.0) order))
    ]
next_unread_channel_id-Nearest order active unread up =
    elim (Option-cases (index_of order active)) [
      | inl e ↦
          rw (e, next_unread_channel_id)
            (scan_up-LastBefore (has_count unread) order (length order))
      | inr f ↦ rw (f.1, next_unread_channel_id) (scan_up-LastBefore (has_count unread) order f.0)
    ]
