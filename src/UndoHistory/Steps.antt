-- ===== src/UndoHistory/Steps.antt =====
-- Steps and their undoing.
use rivendell.Base.{
  ℕ, zero, suc, ◌+◌, ◌-◌, ◌≤◌, ◌<◌, ◌≡◌, refl, sym, ap, subst, ◌∙◌, inl, inr, Bool, true, false,
  Option, some, List, [], ◌∷◌, ◌++◌, arith, ltb, leb, ◌==◌, if◌then◌else◌, ltb→lt, Bool-cases,
  length, length-append,
}
use rivendell.UndoHistory.{
  Entry, History, entry_at, set_entry, slice_to, shift, current, push, record_edit, undo, redo,
  coalesces, same_text,
}

-- The current step exists, and there are at most `limit`.
pub record IsValid (limit : ℕ) (h : History) : Type 0 where
  pub inside : h.index < length h.entries
  pub bounded : length h.entries ≤ limit

length-slice_to : (n : ℕ) (es : List Entry) → n ≤ length es → length (slice_to n es) ≡ n
length-slice_to zero es h = refl
length-slice_to (suc n) [] h = absurd (omega (arith, h))
length-slice_to (suc n) (e ∷ es) h = omega (arith, length-slice_to n es (omega (arith, h)))

length-set_entry : (i : ℕ) (e : Entry) (es : List Entry) → length (set_entry i e es) ≡ length es
length-set_entry i e [] = refl
length-set_entry zero e (d ∷ es) = refl
length-set_entry (suc i) e (d ∷ es) = omega (arith, length-set_entry i e es)

length-shift : (es : List Entry) → length (shift es) ≡ length es - 1
length-shift [] = omega arith
length-shift (e ∷ es) = omega arith

entry_at-slice :
    (i : ℕ) (es more : List Entry)
    → i < length es
    → entry_at i (slice_to (suc i) es ++ more) ≡ entry_at i es
entry_at-slice i [] more h = absurd (omega (arith, h))
entry_at-slice zero (e ∷ es) more h = refl
entry_at-slice (suc i) (e ∷ es) more h = entry_at-slice i es more (omega (arith, h))

entry_at-shift : (i : ℕ) (es : List Entry) → entry_at i (shift es) ≡ entry_at (suc i) es
entry_at-shift i [] = refl
entry_at-shift i (e ∷ es) = refl

length_pushed :
    (h : History) (e : Entry)
    → h.index < length h.entries
    → length (slice_to (h.index + 1) h.entries ++ (e ∷ [])) ≡ h.index + 2
length_pushed h e k =
    let a = length-append (slice_to (h.index + 1) h.entries) (e ∷ []) in
    let b = length-slice_to (h.index + 1) h.entries (omega (arith, k)) in omega (arith, a, b)

undo_last :
    (es : List Entry) (i : ℕ) (t : Option ℕ)
    → 0 < i
    → (undo (record { entries = es; index = i; last_time = t })).0 ≡ some (entry_at (i - 1) es)
unfolding undo
undo_last es i t h = ground arith

entry_at-pushed :
    (h : History) (e : Entry)
    → h.index < length h.entries
    → entry_at h.index (slice_to (h.index + 1) h.entries ++ (e ∷ [])) ≡ current h
unfolding current
entry_at-pushed h e k =
    ap (λ n. entry_at h.index (slice_to n h.entries ++ (e ∷ []))) {y = suc h.index} (omega arith)
    ∙ entry_at-slice h.index h.entries (e ∷ []) k

-- Undoing at the last entry of a list that keeps `c` next to last.
undo_kept :
    (es : List Entry) (i : ℕ) (t : Option ℕ) (c : Entry)
    → length es ≡ i + 2
    → entry_at i es ≡ c
    → (undo (record { entries = es; index = length es - 1; last_time = t })).0 ≡ some c
undo_kept es i t c l e =
    undo_last es (length es - 1) t (omega (arith, l))
    ∙ ap some (ap (λ n. entry_at n es) (omega (arith, l)) ∙ e)

undo-push :
    (limit : ℕ) (e : Entry) (h : History)
    → 2 ≤ limit
    → h.index < length h.entries
    → (undo (push limit e h)).0 ≡ some (current h)
unfolding push
undo-push limit e h l k =
    let next = slice_to (h.index + 1) h.entries ++ (e ∷ []) in
    let n = length_pushed h e k in
    elim (Bool-cases (ltb limit (length next))) [
      | inl b ↦
          let many = ltb→lt limit (length next) b in
          subst
            (λ es.
              (undo (record { entries = es; index = length es - 1; last_time = h.last_time })).0
              ≡ some (current h))
            (sym (ap (λ c. if c then shift next else next) b))
            (undo_kept (shift next) (h.index - 1) h.last_time (current h)
              (omega (arith, length-shift next, n, many, l))
              (entry_at-shift (h.index - 1) next
                ∙ (ap (λ m. entry_at m next) (omega (arith, n, many, l)) ∙ entry_at-pushed h e k)))
      | inr b ↦
          subst
            (λ es.
              (undo (record { entries = es; index = length es - 1; last_time = h.last_time })).0
              ≡ some (current h))
            (sym (ap (λ c. if c then shift next else next) b))
            (undo_kept next h.index h.last_time (current h) n (entry_at-pushed h e k))
    ]

two_tests :
    (b c : Bool) (x y z : History)
    → b ≡ false
    → c ≡ false
    → (if b then x else if c then y else z) ≡ z
two_tests b c x y z h k = rw (h, k)

-- With room for two steps or more, an edit that changes the text and does not join the current
-- step is undone to the step that was current before it.
pub undo-record_edit :
    (limit coalesce_ms now : ℕ) (force : Bool) (e : Entry) (h : History)
    → 2 ≤ limit
    → h.index < length h.entries
    → same_text e.value (current h).value ≡ false
    → coalesces coalesce_ms now force e h ≡ false
    → (undo (record_edit limit coalesce_ms now force e h)).0 ≡ some (current h)
unfolding record_edit current
undo-record_edit limit coalesce_ms now force e h l k t c =
    subst (λ g. (undo g).0 ≡ some (current h)) (sym (two_tests _ _ _ _ _ t c))
      (undo-push limit e (record h { last_time = some now }) l k)

ltb-false : (a b : ℕ) → ltb a b ≡ false → b ≤ a
ltb-false a b h = ground arith

leb-false : (a b : ℕ) → leb a b ≡ false → b < a
leb-false a b h = ground arith

second_if :
    (b : Bool) (x y : Option Entry × History) (c : Bool)
    → b ≡ c
    → (if b then x else y).1 ≡ (if c then x.1 else y.1)
second_if true x y true h = refl
second_if true x y false h = cc h
second_if false x y true h = cc h
second_if false x y false h = refl

push-IsValid :
    (limit : ℕ) (e : Entry) (h : History)
    → 1 ≤ limit
    → IsValid limit h
    → IsValid limit (push limit e h)
unfolding push
push-IsValid limit e h l v =
    let next = slice_to (h.index + 1) h.entries ++ (e ∷ []) in
    let n = length_pushed h e v.inside in
    elim (Bool-cases (ltb limit (length next))) [
      | inl b ↦
          let s = length-shift next in
          subst (λ es. IsValid limit (record h { entries = es; index = length es - 1 }))
            (sym (ap (λ c. if c then shift next else next) b))
            (record {
              inside = omega (arith, s, n);
              bounded = omega (arith, s, n, v.inside, v.bounded);
            })
      | inr b ↦
          let few = ltb-false limit (length next) b in
          subst (λ es. IsValid limit (record h { entries = es; index = length es - 1 }))
            (sym (ap (λ c. if c then shift next else next) b))
            (record { inside = omega (arith, n); bounded = few })
    ]

set_entry-IsValid :
    (limit : ℕ) (e : Entry) (h : History) (t : Option ℕ)
    → IsValid limit h
    → IsValid limit (record h { entries = set_entry h.index e h.entries; last_time = t })
set_entry-IsValid limit e h t v =
    let s = length-set_entry h.index e h.entries in
    record { inside = omega (arith, s, v.inside); bounded = omega (arith, s, v.bounded) }

choose-IsValid :
    (limit : ℕ) (b : Bool) (x y : History)
    → IsValid limit x
    → IsValid limit y
    → IsValid limit (if b then x else y)
choose-IsValid limit true x y v w = v
choose-IsValid limit false x y v w = w

undo-IsValid : (limit : ℕ) (h : History) → IsValid limit h → IsValid limit (undo h).1
unfolding undo
undo-IsValid limit h v = elim (Bool-cases (h.index == 0)) [
  | inl b ↦ subst (IsValid limit) (sym (second_if (h.index == 0) _ _ true b)) v
  | inr b ↦
      subst (IsValid limit) (sym (second_if (h.index == 0) _ _ false b))
        (record { inside = omega (arith, v.inside); bounded = v.bounded })
]

redo-IsValid : (limit : ℕ) (h : History) → IsValid limit h → IsValid limit (redo h).1
unfolding redo
redo-IsValid limit h v = elim (Bool-cases (leb (length h.entries) (h.index + 1))) [
  | inl b ↦
      subst (IsValid limit) (sym (second_if (leb (length h.entries) (h.index + 1)) _ _ true b)) v
  | inr b ↦
      subst (IsValid limit) (sym (second_if (leb (length h.entries) (h.index + 1)) _ _ false b))
        (record { inside = leb-false (length h.entries) (h.index + 1) b; bounded = v.bounded })
]

-- Recording, undoing and redoing keep a history valid: its current step exists, and there are no
-- more steps than the limit.
pub edits-IsValid :
    (limit coalesce_ms now : ℕ) (force : Bool) (e : Entry) (h : History)
    → 1 ≤ limit
    → IsValid limit h
    → IsValid limit (record_edit limit coalesce_ms now force e h)
      × IsValid limit (undo h).1
      × IsValid limit (redo h).1
unfolding record_edit undo redo
edits-IsValid limit coalesce_ms now force e h l v = (
  choose-IsValid limit (same_text e.value (current h).value) _ _
      (set_entry-IsValid limit (record e { value = (current h).value }) h h.last_time v)
      (choose-IsValid limit (coalesces coalesce_ms now force e h) _ _
        (set_entry-IsValid limit e h (some now) v)
        (push-IsValid limit e (record h { last_time = some now }) l
          (record { inside = v.inside; bounded = v.bounded }))),
  undo-IsValid limit h v,
  redo-IsValid limit h v,
)
