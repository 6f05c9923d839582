-- ===== src/Format/Queries/Found.antt =====
-- What a query before the caret is.
use rivendell.Base.{
  ℕ, zero, suc, ◌+◌, ◌-◌, ◌≤◌, ◌<◌, ◌≡◌, refl, sym, ap, ap₂, subst, ◌∙◌, ◌≢◌, inl, inr, Bool, true,
  false, not, ◌&&◌, ◌||◌, Option, none, some, [], ◌∷◌, ◌++◌, arith, ltb, ◌==◌, Bool-cases,
  Option-cases, length, get_elem?, none_ne, some_inj,
}
use rivendell.Regex.{Text, prefix}
use rivendell.Regex.Classes.{word, small}
use rivendell.Composer.Markers.{drop, slice}
use rivendell.Composer.Markers.Slices.{prefix-drop, drop-drop}
use rivendell.Regex.Consuming.{prefix_zero}
use rivendell.Format.Queries.{
  Query, walk, holds_at, follows, query_at, find_query, glued, code_unit, channel_unit, at_query,
  colon_query, hash_query, check_first,
}

-- The class holds of every code unit.
abbrev pub Within : (ℕ → Bool) → Text → Type 0
Within f [] = Unit
Within f (c ∷ cs) = (f c ≡ true) × Within f cs

no_bool : false ≢ true
no_bool h = cc

prefix-suc : (k c : ℕ) (s r : Text) → drop k s ≡ c ∷ r → prefix (suc k) s ≡ prefix k s ++ (c ∷ [])
prefix-suc zero c [] r h = cc
prefix-suc (suc k) c [] r h = cc
prefix-suc zero c (d ∷ s) r h =
    let e : d ≡ c = cc h in
    ap₂ (λ x y. x ∷ y) e (prefix_zero s) ∙ ap (λ x. x ++ (c ∷ [])) (sym (prefix_zero (d ∷ s)))
prefix-suc (suc k) c (d ∷ s) r h = ap (λ x. d ∷ x) (prefix-suc k c s r h)

Within-append : (f : ℕ → Bool) (s t : Text) → Within f s → Within f t → Within f (s ++ t)
Within-append f [] t a b = b
Within-append f (c ∷ s) t a b = (a.0, Within-append f s t a.1 b)

slice_nothing : (n : ℕ) (text : Text) → slice n n text ≡ []
slice_nothing n text =
    let z : n - n ≡ 0 = omega arith in
    ap (λ m. prefix m (drop n text)) z ∙ prefix_zero (drop n text)

get_inside : (text : Text) (i : ℕ) → i < length text → get_elem? text i ≢ none
get_inside [] i l h = absurd (omega (arith, l))
get_inside (d ∷ text) zero l h = cc
get_inside (d ∷ text) (suc i) l h = get_inside text i (omega (arith, l)) h

-- Where the code unit `i` of a text stands.
drop-cons :
    (text : Text) (i c : ℕ) → get_elem? text i ≡ some c → drop i text ≡ c ∷ drop (suc i) text
drop-cons [] i c h = cc
drop-cons (d ∷ text) zero c h = ap (λ x. x ∷ text) (some_inj d c h)
drop-cons (d ∷ text) (suc i) c h = drop-cons text i c h

slice-suc :
    (n i c : ℕ) (text : Text)
    → n ≤ i
    → get_elem? text i ≡ some c
    → slice n (suc i) text ≡ slice n i text ++ (c ∷ [])
slice-suc n i c text l h =
    let k : suc i - n ≡ suc (i - n) = omega (arith, l) in
    let to : n + (i - n) ≡ i = omega (arith, l) in
    let at : drop (i - n) (drop n text) ≡ c ∷ drop (suc i) text =
      drop-drop n (i - n) text ∙ (ap (λ m. drop m text) to ∙ drop-cons text i c h) in
    ap (λ m. prefix m (drop n text)) k ∙ prefix-suc (i - n) c (drop n text) (drop (suc i) text) at

-- The loop ends behind a code unit that is not of the class, or at the start, and what it has passed is of the class.
walk_lem :
    (f : ℕ → Bool) (text : Text) (pos : ℕ)
    → pos ≤ length text
    → (walk f text pos ≤ pos) × Within f (slice (walk f text pos) pos text)
unfolding walk
walk_lem f text zero l = (omega arith, tt)
walk_lem f text (suc i) l =
    let n = walk f text i in
    let r = walk_lem f text i (omega (arith, l)) in
    elim (Option-cases (get_elem? text i)) [
      | inl e ↦ absurd (get_inside text i (omega (arith, l)) e)
      | inr e ↦ elim (Bool-cases (f e.0)) [
        | inl t ↦
            let same : walk f text (suc i) ≡ n = rw (walk, e.1, t) in
            (
              omega (arith, same, r.0),
              subst (λ m. Within f (slice m (suc i) text)) (sym same)
                  (subst (Within f) (sym (slice-suc n i e.0 text r.0 e.1))
                    (Within-append f (slice n i text) (e.0 ∷ []) r.1 (t, tt))),
            )
        | inr t ↦
            let here : walk f text (suc i) ≡ suc i = rw (walk, e.1, t) in
            (
              omega (arith, here),
              subst (λ m. Within f (slice m (suc i) text)) (sym here)
                  (subst (Within f) (sym (slice_nothing (suc i) text)) tt),
            )
      ]
    ]

-- A query is the mark and all that follows it up to the caret, of the class.
abbrev pub IsQuery : (ℕ → Bool) → (ℕ → Bool) → ℕ → Text → ℕ → Query → Type 0
IsQuery f before mark text pos q =
    (text ≡ prefix q.start text ++ (mark ∷ (q.partial ++ drop pos text)))
    × Within f q.partial
    × (follows before text q.start ≡ false)

holds_at_lem :
    (mark : ℕ) (text : Text) (i : ℕ)
    → holds_at (λ c. c == mark) text i ≡ true
    → get_elem? text i ≡ some mark
holds_at_lem mark text i h = elim (Option-cases (get_elem? text i)) [
  | inl e ↦ absurd (no_bool (rw (holds_at, e) at h))
  | inr e ↦
      let same : e.0 == mark ≡ true = rw (holds_at, e.1) at h in
      let is : e.0 ≡ mark = ground (arith, same) in e.1 ∙ ap some is
]

both : (a b : Bool) → a && not b ≡ true → (a ≡ true) × (b ≡ false)
both true false h = (refl, refl)
both true true h = absurd (no_bool h)
both false b h = absurd (no_bool h)

made_IsQuery :
    (f before : ℕ → Bool) (mark : ℕ) (text : Text) (pos i : ℕ)
    → suc i ≤ pos
    → Within f (slice (suc i) pos text)
    → get_elem? text i ≡ some mark
    → follows before text i ≡ false
    → IsQuery f before mark text pos (record { start = i; partial = slice (suc i) pos text })
made_IsQuery f before mark text pos i l w g b =
    let rest : drop (suc i) text ≡ slice (suc i) pos text ++ drop pos text =
      prefix-drop (pos - suc i) (drop (suc i) text)
      ∙ ap (λ x. slice (suc i) pos text ++ x)
          (drop-drop (suc i) (pos - suc i) text ∙ ap (λ n. drop n text) (omega (arith, l))) in
    (
      prefix-drop i text
          ∙ ap (λ x. prefix i text ++ x) (drop-cons text i mark g ∙ ap (λ x. mark ∷ x) rest),
      w,
      b,
    )

query_at_lem :
    (f before : ℕ → Bool) (mark : ℕ) (text : Text) (pos n : ℕ) (q : Query)
    → n ≤ pos
    → Within f (slice n pos text)
    → query_at f before mark text pos n ≡ some q
    → IsQuery f before mark text pos q
query_at_lem f before mark text pos zero q l w h = cc
query_at_lem f before mark text pos (suc i) q l w h =
    elim (Bool-cases (holds_at (λ c. c == mark) text i && not (follows before text i))) [
      | inr e ↦ absurd (none_ne q (rw (e) at h))
      | inl e ↦
          let t = both (holds_at (λ c. c == mark) text i) (follows before text i) e in
          subst (IsQuery f before mark text pos) (some_inj _ q (rw (e) at h))
            (made_IsQuery f before mark text pos i l w (holds_at_lem mark text i t.0) t.1)
    ]

find_query_lem :
    (f before : ℕ → Bool) (mark : ℕ) (text : Text) (pos : ℕ) (q : Query)
    → pos ≤ length text
    → find_query f before mark text pos ≡ some q
    → IsQuery f before mark text pos q
unfolding find_query
find_query_lem f before mark text pos q l h =
    let w = walk_lem f text pos l in
    query_at_lem f before mark text pos (walk f text pos) q w.0 w.1 h

-- What holds of a query if there is one.
abbrev pub Each : (Query → Type 0) → Option Query → Type 0
Each P none = Unit
Each P (some q) = P q

each : (o : Option Query) (P : Query → Type 0) → ((q : Query) → o ≡ some q → P q) → Each P o
each none P h = tt
each (some q) P h = h q refl

-- A name begins with a letter, if there is any of it yet.
abbrev pub begins : Text → ℕ → Query → Bool
begins text pos q = not (ltb (q.start + 1) pos) || holds_at small text (q.start + 1)

de_morgan : (a b : Bool) → a && not b ≡ false → not a || b ≡ true
de_morgan true true h = refl
de_morgan true false h = absurd (no_bool (sym h))
de_morgan false b h = refl

check_first-begins :
    (text : Text) (pos : ℕ) (p q : Query)
    → check_first text pos p ≡ some q
    → (p ≡ q) × (begins text pos q ≡ true)
check_first-begins text pos p q h =
    elim (Bool-cases (ltb (p.start + 1) pos && not (holds_at small text (p.start + 1)))) [
      | inl e ↦ absurd (none_ne q (rw (check_first, e) at h))
      | inr e ↦
          let same : p ≡ q = some_inj p q (rw (check_first, e) at h) in
          (
            same,
            subst (λ r. begins text pos r ≡ true) same
                (de_morgan (ltb (p.start + 1) pos) (holds_at small text (p.start + 1)) e),
          )
    ]

hash_query_lem :
    (text : Text) (pos : ℕ) (q : Query)
    → pos ≤ length text
    → hash_query text pos ≡ some q
    → IsQuery channel_unit glued 35 text pos q × (begins text pos q ≡ true)
unfolding hash_query
hash_query_lem text pos q l h = elim (Option-cases (find_query channel_unit glued 35 text pos)) [
  | inl e ↦ absurd (none_ne q (rw (hash_query, e) at h))
  | inr e ↦
      let c = check_first-begins text pos e.0 q (rw (hash_query, e.1) at h) in
      (
        subst (IsQuery channel_unit glued 35 text pos) c.0
            (find_query_lem channel_unit glued 35 text pos e.0 l e.1),
        c.1,
      )
]

-- Of a caret inside the text. The text up to the caret ends with the mark and the partial word of each query that is found: `@` and word characters for a user, `:` and code characters for an emoji, `#` and name characters, the first one a letter, for a channel. The mark does not follow a word character or a slash, and for an emoji no colon either.
pub queries_lem :
    (text : Text) (pos : ℕ)
    → pos ≤ length text
    → Each (IsQuery word glued 64 text pos) (at_query text pos)
      × Each (IsQuery code_unit (λ c. glued c || c == 58) 58 text pos) (colon_query text pos)
      × Each
          (λ q. IsQuery channel_unit glued 35 text pos q × (begins text pos q ≡ true))
          (hash_query text pos)
unfolding at_query colon_query
queries_lem text pos l = (
  each (at_query text pos) (IsQuery word glued 64 text pos)
      (λ q. find_query_lem word glued 64 text pos q l),
  each (colon_query text pos) (IsQuery code_unit (λ c. glued c || c == 58) 58 text pos)
      (λ q. find_query_lem code_unit (λ c. glued c || c == 58) 58 text pos q l),
  each (hash_query text pos)
      (λ q. IsQuery channel_unit glued 35 text pos q × (begins text pos q ≡ true))
      (λ q. hash_query_lem text pos q l),
)
