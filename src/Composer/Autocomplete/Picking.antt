-- ===== src/Composer/Autocomplete/Picking.antt =====
-- What picking an item does to the text.
use rivendell.Base.{
  ℕ, zero, suc, ◌+◌, ◌≤◌, ◌≡◌, refl, sym, ap, ap₂, subst, ◌∙◌, inl, inr, Bool, true, false, ◌||◌,
  Option, none, some, List, [], ◌∷◌, ◌++◌, arith, ◌==◌, Option-cases, length, get_elem?,
  length-append, append_assoc, none_ne,
}
use rivendell.Regex.{Text, prefix}
use rivendell.Regex.Classes.{word}
use rivendell.Composer.Markers.{drop}
use rivendell.Composer.Markers.Slices.{length-prefix}
use rivendell.Format.Queries.{
  Query, walk, find_query, query_at, holds_at, at_query, colon_query, hash_query, glued, code_unit,
  channel_unit,
}
use rivendell.Format.Queries.Found.{IsQuery, Each, queries_lem, begins}
use rivendell.Composer.Autocomplete.{
  Letters, Context, Item, person, emoji, channel, Completion, Box, typed, clicked, act, pick,
  put_item, update_popup, detect_completion, close_popup, item_text,
}

-- The query ends the text up to the caret, after a mark.
EndsWith : Text → ℕ → Query → Type 0
EndsWith value pos q =
    (mark : ℕ) × (value ≡ prefix q.start value ++ (mark ∷ (q.partial ++ drop pos value)))

from_query :
    (f before : ℕ → Bool) (mark : ℕ) (value : Text) (pos : ℕ) (o : Option Query) (q : Query)
    → Each (IsQuery f before mark value pos) o
    → o ≡ some q
    → EndsWith value pos q
unfolding EndsWith
from_query f before mark value pos o q h e =
    (mark, (subst (Each (IsQuery f before mark value pos)) e h).0)

from_name :
    (value : Text) (pos : ℕ) (o : Option Query) (q : Query)
    → Each (λ q. IsQuery channel_unit glued 35 value pos q × (begins value pos q ≡ true)) o
    → o ≡ some q
    → EndsWith value pos q
unfolding EndsWith
from_name value pos o q h e = (
  35,
  (subst (Each (λ q. IsQuery channel_unit glued 35 value pos q × (begins value pos q ≡ true))) e
      h).0.0,
)

query_of : Query → Option (Query × List Item) → Query
query_of q none = q
query_of q (some d) = d.0

same_query :
    (q : Query) (items : List Item) (d : Query × List Item) → some (q, items) ≡ some d → q ≡ d.0
unfolding query_of
same_query q items d h = ap (query_of q) h

detect_completion-EndsWith :
    (l : Letters) (ctx : Context) (value : Text) (pos : ℕ) (d : Query × List Item)
    → pos ≤ length value
    → detect_completion l ctx value pos ≡ some d
    → EndsWith value pos d.0
unfolding detect_completion
detect_completion-EndsWith l ctx value pos d le h =
    let all = queries_lem value pos le in
    elim (Option-cases (at_query value pos)) [
      | inr e ↦
          subst (EndsWith value pos) (same_query e.0 _ d (rw (detect_completion, e.1) at h))
            (from_query word glued 64 value pos (at_query value pos) e.0 all.0 e.1)
      | inl n ↦ elim (Option-cases (colon_query value pos)) [
        | inr e ↦
            subst (EndsWith value pos) (same_query e.0 _ d (rw (detect_completion, n, e.1) at h)) (
              from_query code_unit (λ c. glued c || c == 58) 58 value pos (colon_query value pos)
                e.0 all.1 e.1)
        | inl k ↦ elim (Option-cases (hash_query value pos)) [
          | inr e ↦
              subst (EndsWith value pos)
                (same_query e.0 _ d (rw (detect_completion, n, k, e.1) at h))
                (from_name value pos (hash_query value pos) e.0 all.2 e.1)
          | inl z ↦ absurd (none_ne d (rw (detect_completion, n, k, z) at h))
        ]
      ]
    ]

-- Right after a space there is no query.
walk_stays :
    (f : ℕ → Bool) (text : Text) (i : ℕ)
    → get_elem? text i ≡ some 32
    → f 32 ≡ false
    → walk f text (suc i) ≡ suc i
unfolding walk
walk_stays f text i g h = rw (walk, g, h)

find_query-space :
    (f before : ℕ → Bool) (mark : ℕ) (text : Text) (i : ℕ)
    → get_elem? text i ≡ some 32
    → f 32 ≡ false
    → 32 == mark ≡ false
    → find_query f before mark text (suc i) ≡ none
unfolding find_query
find_query-space f before mark text i g h m =
    let at : holds_at (λ c. c == mark) text i ≡ false = rw (holds_at, g) m in
    ap (query_at f before mark text (suc i)) (walk_stays f text i g h) ∙ rw (at)

detect_completion-space :
    (l : Letters) (ctx : Context) (text : Text) (i : ℕ)
    → get_elem? text i ≡ some 32
    → detect_completion l ctx text (suc i) ≡ none
unfolding detect_completion at_query colon_query hash_query
detect_completion-space l ctx text i g =
    let a : at_query text (suc i) ≡ none = find_query-space word glued 64 text i g refl refl in
    let c : colon_query text (suc i) ≡ none =
      find_query-space code_unit (λ c. glued c || c == 58) 58 text i g refl refl in
    let n = find_query-space channel_unit glued 35 text i g refl refl in
    let h : hash_query text (suc i) ≡ none = rw (hash_query, n) in rw (detect_completion, a, c, h)

get_elem?-append : (s t : Text) (c i : ℕ) → i ≡ length s → get_elem? (s ++ (c ∷ t)) i ≡ some c
get_elem?-append [] t c zero h = refl
get_elem?-append [] t c (suc i) h = absurd (omega (arith, h))
get_elem?-append (d ∷ s) t c zero h = absurd (omega (arith, h))
get_elem?-append (d ∷ s) t c (suc i) h = get_elem?-append s t c i (omega (arith, h))

-- What is put in ends with a space.
item_text_ends : (item : Item) → (s : Text) × (item_text item ≡ s ++ 32 ∷ [])
item_text_ends (person u) = (64 ∷ u.username, refl)
item_text_ends (channel name) = (35 ∷ name, refl)
item_text_ends (emoji code glyph) =
    (58 ∷ (code ++ 58 ∷ []), ap (λ x. 58 ∷ x) (sym (append_assoc code (58 ∷ []) (32 ∷ []))))

update_popup_keeps :
    (l : Letters) (ctx : Context) (b : Box)
    → ((update_popup l ctx b).value ≡ b.value) × ((update_popup l ctx b).caret ≡ b.caret)
unfolding update_popup close_popup
update_popup_keeps l ctx b = elim (Option-cases (detect_completion l ctx b.value b.caret)) [
  | inl e ↦ (rw (update_popup, e), rw (update_popup, e))
  | inr e ↦ (rw (update_popup, e.1), rw (update_popup, e.1))
]

query_of_completion : Query → Option Completion → Query
query_of_completion q none = q
query_of_completion q (some c) = c.query

-- The completion holds the query that ends the text.
update_popup-EndsWith :
    (l : Letters) (ctx : Context) (b : Box) (c : Completion)
    → b.caret ≤ length b.value
    → (update_popup l ctx b).completion ≡ some c
    → EndsWith b.value b.caret c.query
unfolding update_popup close_popup query_of_completion
update_popup-EndsWith l ctx b c le h =
    elim (Option-cases (detect_completion l ctx b.value b.caret)) [
      | inl e ↦ absurd (none_ne c (rw (update_popup, e) at h))
      | inr e ↦
          subst (EndsWith b.value b.caret)
            (ap (query_of_completion e.0.0) (rw (update_popup, e.1) at h))
            (detect_completion-EndsWith l ctx b.value b.caret e.0 le e.1)
    ]

start_inside :
    (value : Text) (pos : ℕ) (q : Query)
    → EndsWith value pos q
    → length (prefix q.start value) ≡ q.start
unfolding EndsWith
start_inside value pos q h =
    let n : length value
        ≡ length (prefix q.start value) + suc (length (q.partial ++ drop pos value)) =
      ap length h.1 ∙ length-append (prefix q.start value) (h.0 ∷ (q.partial ++ drop pos value)) in
    omega (arith, n, length-prefix q.start value)

-- After the item a space stands before the caret, and nothing is left to complete.
put_item_closes :
    (l : Letters) (ctx : Context) (item : Item) (c : Completion) (b : Box)
    → length (prefix c.query.start b.value) ≡ c.query.start
    → update_popup l ctx (put_item item c b) ≡ put_item item c b
unfolding update_popup put_item close_popup
put_item_closes l ctx item c b h =
    let a = prefix c.query.start b.value in
    let s = item_text_ends item in
    let rest = drop b.caret b.value in
    let v : a ++ (item_text item ++ rest) ≡ (a ++ s.0) ++ (32 ∷ rest) =
      ap (λ x. a ++ (x ++ rest)) s.1
      ∙ (ap (λ x. a ++ x) (append_assoc s.0 (32 ∷ []) rest)
          ∙ sym (append_assoc a s.0 (32 ∷ rest))) in
    let n : c.query.start + length (item_text item) ≡ suc (length (a ++ s.0)) =
      omega (arith, h, ap length s.1, length-append s.0 (32 ∷ []), length-append a s.0) in
    let g : get_elem? (a ++ (item_text item ++ rest)) (length (a ++ s.0)) ≡ some 32 =
      ap (λ x. get_elem? x (length (a ++ s.0))) v
      ∙ get_elem?-append (a ++ s.0) rest 32 (length (a ++ s.0)) refl in
    let d : detect_completion l ctx (a ++ (item_text item ++ rest))
          (c.query.start + length (item_text item))
        ≡ none =
      ap (detect_completion l ctx (a ++ (item_text item ++ rest))) n
      ∙ detect_completion-space l ctx (a ++ (item_text item ++ rest)) (length (a ++ s.0)) g in
    rw (update_popup, d)

pick-some :
    (l : Letters) (ctx : Context) (item : Item) (c : Completion) (b : Box)
    → b.completion ≡ some c
    → pick l ctx item b ≡ update_popup l ctx (put_item item c b)
unfolding pick
pick-some l ctx item c b h =
    ap (λ o. elim o [ none ↦ b | some c ↦ update_popup l ctx (put_item item c b) ]) h

put_in :
    (item : Item) (c : Completion) (b : Box) (value : Text) (caret : ℕ)
    → b.value ≡ value
    → b.caret ≡ caret
    → put_item item c b ≡ record {
      value = prefix c.query.start value ++ (item_text item ++ drop caret value);
      caret = c.query.start + length (item_text item);
      completion = none;
      hidden = true;
    }
unfolding put_item close_popup
put_in item c b value caret h g =
    ap₂
      (λ v k. record {
        value = prefix c.query.start v ++ (item_text item ++ drop k v);
        caret = c.query.start + length (item_text item);
        completion = none;
        hidden = true;
      })
      h g

-- After typing, with the caret inside the text, a completion is for a mark and the word after it that end right before the caret. Picking an item puts its text in their place and nothing else, sets the caret behind it, and closes the popup.
pub pick-typed :
    (l : Letters) (ctx : Context) (value : Text) (caret : ℕ) (before : Box) (c : Completion)
    (item : Item)
    → caret ≤ length value
    → (act l ctx (typed value caret) before).completion ≡ some c
    → (mark : ℕ) × (value
        ≡ prefix c.query.start value ++ (mark ∷ (c.query.partial ++ drop caret value)))
      × (act l ctx (clicked item) (act l ctx (typed value caret) before) ≡ record {
        value = prefix c.query.start value ++ (item_text item ++ drop caret value);
        caret = c.query.start + length (item_text item);
        completion = none;
        hidden = true;
      })
unfolding act pick EndsWith
pick-typed l ctx value caret before c item le h =
    let typed_box : Box = record before { value = value; caret = caret } in
    let e = update_popup-EndsWith l ctx typed_box c le h in
    let keeps = update_popup_keeps l ctx typed_box in
    (
      e.0,
      e.1,
      pick-some l ctx item c (update_popup l ctx typed_box) h
          ∙ (put_item_closes l ctx item c (update_popup l ctx typed_box) (
                ap (λ v. length (prefix c.query.start v)) keeps.0
                ∙ start_inside value caret c.query e)
              ∙ put_in item c (update_popup l ctx typed_box) value caret keeps.0 keeps.1),
    )
