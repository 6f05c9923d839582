-- ===== src/Recents.antt =====
-- web/static/prefs.js: the recently used emoji, the latest first. The stored list is an argument;
-- its text form is the browser's JSON.
use rivendell.Base.{
  ℕ, zero, suc, ◌≤◌, ◌≡◌, refl, Bool, true, false, not, ◌&&◌, some, List, [], ◌∷◌, arith, ◌==◌,
  if◌then◌else◌, length, get_elem?, filter, All,
}
use rivendell.Base.{get_elem?, some, refl, length, ◌≡◌, Bool, true, false, not}

pub record Recent : Type 0 where
  pub v : ℕ
  pub c : Bool

abbrev same_flag : Bool → Bool → Bool
same_flag true b = b
same_flag false b = not b

abbrev pub same_recent : Recent → Recent → Bool
same_recent a b = a.v == b.v && same_flag a.c b.c

-- `slice(0, n)`
abbrev pub slice_to : ℕ → List Recent → List Recent
slice_to zero es = []
slice_to (suc n) [] = []
slice_to (suc n) (e ∷ es) = e ∷ slice_to n es

abbrev pub recent_emoji_cap : ℕ
recent_emoji_cap = 16

-- The value is a number for its text.
unfoldable pub push_recent_emoji : ℕ → Bool → List Recent → List Recent
push_recent_emoji value is_custom stored =
    let entry : Recent = record { v = value; c = is_custom } in
    slice_to recent_emoji_cap (entry ∷ filter (λ e. not (same_recent e entry)) stored)

abbrev pub Others : Recent → List Recent → Type 0
Others e = All (λ d. same_recent d e ≡ false)

-- No two entries are the same.
abbrev pub IsDistinct : List Recent → Type 0
IsDistinct [] = Unit
IsDistinct (e ∷ es) = Others e es × IsDistinct es

slice-Others : (e : Recent) (n : ℕ) (es : List Recent) → Others e es → Others e (slice_to n es)
slice-Others e zero es h = tt
slice-Others e (suc n) [] h = tt
slice-Others e (suc n) (d ∷ es) h = (h.0, slice-Others e n es h.1)

slice-IsDistinct : (n : ℕ) (es : List Recent) → IsDistinct es → IsDistinct (slice_to n es)
slice-IsDistinct zero es h = tt
slice-IsDistinct (suc n) [] h = tt
slice-IsDistinct (suc n) (e ∷ es) h = (slice-Others e n es h.0, slice-IsDistinct n es h.1)

length-slice_to : (n : ℕ) (es : List Recent) → length (slice_to n es) ≤ n
length-slice_to zero es = omega arith
length-slice_to (suc n) [] = omega arith
length-slice_to (suc n) (e ∷ es) = omega (arith, length-slice_to n es)

abbrev fresh : Recent → List Recent → List Recent
fresh e = filter (λ x. not (same_recent x e))

false_of_not : (b : Bool) → not b ≡ true → b ≡ false
false_of_not true h = cc h
false_of_not false h = refl

cons-Others :
    (b : Bool) (d x : Recent) (xs : List Recent)
    → (b ≡ true → same_recent x d ≡ false)
    → Others d xs
    → Others d (if b then x ∷ xs else xs)
cons-Others true d x xs f h = (f refl, h)
cons-Others false d x xs f h = h

filter-Others : (e d : Recent) (es : List Recent) → Others d es → Others d (fresh e es)
filter-Others e d [] h = tt
filter-Others e d (x ∷ es) h =
    cons-Others (not (same_recent x e)) d x (fresh e es) (λ t. h.0) (filter-Others e d es h.1)

filter_fresh : (e : Recent) (es : List Recent) → Others e (fresh e es)
filter_fresh e [] = tt
filter_fresh e (x ∷ es) =
    cons-Others (not (same_recent x e)) e x (fresh e es) (λ t. false_of_not (same_recent x e) t)
      (filter_fresh e es)

cons-IsDistinct :
    (b : Bool) (x : Recent) (xs : List Recent)
    → Others x xs
    → IsDistinct xs
    → IsDistinct (if b then x ∷ xs else xs)
cons-IsDistinct true x xs o h = (o, h)
cons-IsDistinct false x xs o h = h

filter-IsDistinct : (e : Recent) (es : List Recent) → IsDistinct es → IsDistinct (fresh e es)
filter-IsDistinct e [] h = tt
filter-IsDistinct e (x ∷ es) h =
    cons-IsDistinct (not (same_recent x e)) x (fresh e es) (filter-Others e x es h.0)
      (filter-IsDistinct e es h.1)

-- Picking an emoji keeps the recent ones distinct and at most sixteen, and puts it first.
pub push_recent_emoji_lem :
    (value : ℕ) (is_custom : Bool) (stored : List Recent)
    → IsDistinct stored
    → let next = push_recent_emoji value is_custom stored in
      IsDistinct next
      × (length next ≤ recent_emoji_cap)
      × (get_elem? next 0 ≡ some (record { v = value; c = is_custom }))
unfolding push_recent_emoji
push_recent_emoji_lem value is_custom stored h =
    let e : Recent = record { v = value; c = is_custom } in
    (
      slice-IsDistinct recent_emoji_cap (e ∷ fresh e stored)
          (filter_fresh e stored, filter-IsDistinct e stored h),
      length-slice_to recent_emoji_cap (e ∷ fresh e stored),
      refl,
    )
