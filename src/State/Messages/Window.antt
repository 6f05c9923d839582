-- ===== src/State/Messages/Window.antt =====
-- A window is ascending by id, and is determined by what `find` reads from it.
use rivendell.Base.{
  ℕ, ◌≤◌, ◌<◌, ◌≡◌, refl, sym, ap, ap₂, ◌∙◌, ◌≢◌, inl, inr, Option, none, some, List, [], ◌∷◌, ◌++◌,
  arith, ltb, ◌==◌, if◌then◌else◌, leb→le, Bool-cases, or_else, is_some, find, All,
}
use rivendell.Model.{Message}
use rivendell.State.Messages.{id_le, has_id, loaded}
use rivendell.Sort.{insert, sort}
use rivendell.Sort.Laws.{insert-All, sort-All}

abbrev pub find_id : ℕ → List Message → Option Message
find_id id = find (has_id id)

-- The ids ascend strictly: no message stands twice.
abbrev pub IsWindow : List Message → Type 0
IsWindow [] = Unit
IsWindow (m ∷ ms) = All (λ n. m.id < n.id) ms × IsWindow ms

abbrev pub Differs : Message → List Message → Type 0
Differs m ms = All (λ n. m.id ≢ n.id) ms

abbrev pub IsDistinct : List Message → Type 0
IsDistinct [] = Unit
IsDistinct (m ∷ ms) = Differs m ms × IsDistinct ms

All-lt_trans :
    (x y : Message) (zs : List Message)
    → x.id < y.id
    → All (λ n. y.id < n.id) zs
    → All (λ n. x.id < n.id) zs
All-lt_trans x y [] l h = tt
All-lt_trans x y (z ∷ zs) l h = (omega arith, All-lt_trans x y zs l h.1)

insert-IsWindow :
    (x : Message) (ys : List Message) → Differs x ys → IsWindow ys → IsWindow (insert id_le x ys)
unfolding insert
insert-IsWindow x [] d h = (tt, tt)
insert-IsWindow x (y ∷ ys) d h = elim (Bool-cases (id_le x y)) [
  | inl e ↦
      let l : x.id < y.id = let b = leb→le _ _ e in omega (arith, d.0) in
      rw e ((l, All-lt_trans x y ys l h.0), h)
  | inr e ↦
      rw e
        (insert-All id_le (λ n. y.id < n.id) x ys (ground arith) h.0, insert-IsWindow x ys d.1 h.1)
]

-- Sorting messages with distinct ids gives a window.
pub by_id-IsWindow : (xs : List Message) → IsDistinct xs → IsWindow (sort id_le xs)
unfolding sort
by_id-IsWindow [] d = tt
by_id-IsWindow (x ∷ xs) d =
    insert-IsWindow x (sort id_le xs) (sort-All id_le (λ n. x.id ≢ n.id) xs d.0)
      (by_id-IsWindow xs d.1)

find-insert :
    (j : ℕ) (x : Message) (ys : List Message)
    → find_id j (insert id_le x ys) ≡ (if x.id == j then some x else find_id j ys)
unfolding insert
find-insert j x [] = refl
find-insert j x (y ∷ ys) = ground (arith, find-insert j x ys)

-- Sorting does not change which message is found: it is stable.
pub find-by_id : (j : ℕ) (xs : List Message) → find_id j (sort id_le xs) ≡ find_id j xs
unfolding sort
find-by_id j [] = refl
find-by_id j (x ∷ xs) =
    find-insert j x (sort id_le xs) ∙ ap (λ r. if x.id == j then some x else r) (find-by_id j xs)

find_above : (j k : ℕ) (ms : List Message) → j ≤ k → All (λ n. k < n.id) ms → find_id j ms ≡ none
find_above j k [] l h = refl
find_above j k (m ∷ ms) l h = ground (arith, find_above j k ms l h.1)

find_tail :
    (j : ℕ) (x y : Message) (xs ys : List Message)
    → x.id ≡ y.id
    → All (λ n. x.id < n.id) xs
    → All (λ n. y.id < n.id) ys
    → find_id j (x ∷ xs) ≡ find_id j (y ∷ ys)
    → find_id j xs ≡ find_id j ys
find_tail j x y xs ys same hx hy e = elim (Bool-cases (x.id == j)) [
  | inl t ↦ find_above j x.id xs (ground arith) hx ∙ sym (find_above j y.id ys (ground arith) hy)
  | inr t ↦ ground arith
]

heads :
    (x y : Message) (xs ys : List Message)
    → All (λ n. x.id < n.id) xs
    → All (λ n. y.id < n.id) ys
    → find_id x.id (x ∷ xs) ≡ find_id x.id (y ∷ ys)
    → find_id y.id (x ∷ xs) ≡ find_id y.id (y ∷ ys)
    → x ≡ y
heads x y xs ys hx hy e f = elim (Bool-cases (x.id == y.id)) [
  | inl t ↦ ground arith
  | inr t ↦ elim (Bool-cases (ltb x.id y.id)) [
    | inl l ↦ absurd (ground (arith, find_above x.id y.id ys (ground arith) hy))
    | inr l ↦ absurd (ground (arith, find_above y.id x.id xs (ground arith) hx))
  ]
]

-- Two windows from which every id reads the same message are equal.
pub IsWindow-ext :
    (xs ys : List Message)
    → IsWindow xs
    → IsWindow ys
    → ((j : ℕ) → find_id j xs ≡ find_id j ys)
    → xs ≡ ys
IsWindow-ext [] [] hx hy e = refl
IsWindow-ext [] (y ∷ ys) hx hy e = absurd (ground (arith, e y.id))
IsWindow-ext (x ∷ xs) [] hx hy e = absurd (ground (arith, e x.id))
IsWindow-ext (x ∷ xs) (y ∷ ys) hx hy e =
    let same : x ≡ y = heads x y xs ys hx.0 hy.0 (e x.id) (e y.id) in
    ap₂ ◌∷◌ same (
      IsWindow-ext xs ys hx.1 hy.1
        (λ j. find_tail j x y xs ys (ap (λ (m : Message). m.id) same) hx.0 hy.0 (e j)))

pub find-append :
    (j : ℕ) (xs ys : List Message) → find_id j (xs ++ ys) ≡ or_else (find_id j xs) (find_id j ys)
find-append j [] ys = refl
find-append j (x ∷ xs) ys = ground (arith, find-append j xs ys)

pub loaded-find : (j : ℕ) (ms : List Message) → loaded ms j ≡ is_some (find_id j ms)
loaded-find j [] = refl
loaded-find j (m ∷ ms) = ground (arith, loaded-find j ms)

IsWindow-IsDistinct_step :
    (m : Message) (ms : List Message) → All (λ n. m.id < n.id) ms → Differs m ms
IsWindow-IsDistinct_step m [] h = tt
IsWindow-IsDistinct_step m (n ∷ ms) h = (omega arith, IsWindow-IsDistinct_step m ms h.1)

pub IsWindow-IsDistinct : (ms : List Message) → IsWindow ms → IsDistinct ms
IsWindow-IsDistinct [] h = tt
IsWindow-IsDistinct (m ∷ ms) h = (IsWindow-IsDistinct_step m ms h.0, IsWindow-IsDistinct ms h.1)
