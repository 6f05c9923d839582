-- ===== src/Composer/Autocomplete/Popup.antt =====
-- The popup and its index, through any actions.
use rivendell.Base.{
  ℕ, zero, suc, ◌+◌, ◌-◌, ◌<◌, min, ◌≡◌, refl, sym, ap, ap₂, subst, ◌∙◌, ◌≢◌, inl, inr, Bool, true,
  false, Option, none, some, List, [], ◌∷◌, arith, Bool-cases, Option-cases, length, get_elem?,
  true_ne_false,
}
use rivendell.Composer.Autocomplete.{put_item, press, if_shown}
use rivendell.Composer.Autocomplete.{
  put_item, Letters, Context, Item, Completion, Box, Key, Action, update_popup, detect_completion,
  clamp_index, close_popup, pick, pick_index, move_to, handle_keydown, act, is_nothing,
}
use rivendell.Composer.Autocomplete.{typed, caret_moved, key, blurred, clicked}
use rivendell.Composer.Autocomplete.{
  arrow_down, arrow_up, tab, enter, shift_enter, escape, other_key,
}

-- A popup that shows has an item under its index.
abbrev pub IsValid : Box → Type 0
IsValid b =
    b.hidden ≡ false → (c : Completion) × (b.completion ≡ some c) × (c.index < length c.items)

get_inside {ℓ} : {A : Type ℓ} (xs : List A) (i : ℕ) → i < length xs → get_elem? xs i ≢ none
get_inside [] i l h = absurd (omega (arith, l))
get_inside (x ∷ xs) zero l h = cc
get_inside (x ∷ xs) (suc i) l h = get_inside xs i (omega (arith, l)) h

close_popup-IsValid : (b : Box) → IsValid (close_popup b)
unfolding close_popup
close_popup-IsValid b h = absurd (true_ne_false h)

some_items : (items : List Item) → is_nothing items ≡ false → 0 < length items
some_items [] h = cc
some_items (x ∷ xs) h = omega arith

update_popup-IsValid : (l : Letters) (ctx : Context) (b : Box) → IsValid (update_popup l ctx b)
unfolding update_popup clamp_index
update_popup-IsValid l ctx b = elim (Option-cases (detect_completion l ctx b.value b.caret)) [
  | inl e ↦ rw (update_popup, e) (close_popup-IsValid b)
  | inr e ↦ rw (update_popup, e.1) (λ h. (_, refl, omega (arith, some_items e.0.1 h)))
]

pick-IsValid :
    (l : Letters) (ctx : Context) (item : Item) (b : Box) → IsValid b → IsValid (pick l ctx item b)
unfolding pick
pick-IsValid l ctx item b v = elim (Option-cases b.completion) [
  | inl e ↦ rw (pick, e) v
  | inr e ↦ rw (pick, e.1) (update_popup-IsValid l ctx (put_item item e.0 b))
]

pick_index-IsValid :
    (l : Letters) (ctx : Context) (c : Completion) (b : Box)
    → IsValid b
    → IsValid (pick_index l ctx c b)
unfolding pick_index
pick_index-IsValid l ctx c b v = elim (Option-cases (get_elem? c.items c.index)) [
  | inl e ↦ rw (pick_index, e) v
  | inr e ↦ rw (pick_index, e.1) (pick-IsValid l ctx e.0 b v)
]

moved :
    (f : Completion → ℕ) (c : Completion) (b : Box) → f c < length c.items → IsValid (move_to f c b)
moved f c b l h = (record c { index = f c }, refl, l)

-- A key in a popup that shows.
press-IsValid :
    (l : Letters) (ctx : Context) (k : Key) (c : Completion) (b : Box)
    → IsValid b
    → c.index < length c.items
    → IsValid (press l ctx k c b).1
unfolding press
press-IsValid l ctx arrow_down c b v i =
    moved (λ c. min (c.index + 1) (length c.items - 1)) c b (omega (arith, i))
press-IsValid l ctx arrow_up c b v i = moved (λ c. c.index - 1) c b (omega (arith, i))
press-IsValid l ctx tab c b v i = pick_index-IsValid l ctx c b v
press-IsValid l ctx enter c b v i = pick_index-IsValid l ctx c b v
press-IsValid l ctx shift_enter c b v i = v
press-IsValid l ctx escape c b v i = close_popup-IsValid b
press-IsValid l ctx other_key c b v i = v

handle_keydown_shown :
    (l : Letters) (ctx : Context) (k : Key) (c : Completion) (b : Box)
    → b.completion ≡ some c
    → b.hidden ≡ false
    → handle_keydown l ctx k b ≡ press l ctx k c b
unfolding handle_keydown
handle_keydown_shown l ctx k c b e h =
    ap₂ (λ o hidden. if_shown (λ c. press l ctx k c b) o hidden b) e h

unshown :
    (f : Completion → Bool × Box) (o : Option Completion) (b : Box) → (if_shown f o true b).1 ≡ b
unshown f none b = refl
unshown f (some c) b = refl

handle_keydown-IsValid :
    (l : Letters) (ctx : Context) (k : Key) (b : Box)
    → IsValid b
    → IsValid (handle_keydown l ctx k b).1
unfolding handle_keydown
handle_keydown-IsValid l ctx k b v = elim (Bool-cases b.hidden) [
  | inl h ↦
      let f : Completion → Bool × Box = λ c. press l ctx k c b in
      let same : (handle_keydown l ctx k b).1 ≡ b =
        ap (λ hidden. (if_shown f b.completion hidden b).1) h ∙ unshown f b.completion b in
      subst IsValid (sym same) v
  | inr h ↦
      let c = v h in
      subst (λ r. IsValid r.1) (sym (handle_keydown_shown l ctx k c.0 b c.1 h))
        (press-IsValid l ctx k c.0 b v c.2)
]

pub act-IsValid :
    (l : Letters) (ctx : Context) (a : Action) (b : Box) → IsValid b → IsValid (act l ctx a b)
unfolding act
act-IsValid l ctx (typed value caret) b v =
    update_popup-IsValid l ctx (record b { value = value; caret = caret })
act-IsValid l ctx (caret_moved caret) b v = v
act-IsValid l ctx (key k) b v = handle_keydown-IsValid l ctx k b v
act-IsValid l ctx blurred b v = close_popup-IsValid b
act-IsValid l ctx (clicked item) b v = pick-IsValid l ctx item b v

-- Typing, moving the caret, keys, clicks and the end of a blur, in any order.
unfoldable pub run_actions : Letters → List (Context × Action) → Box → Box
unfolding act
run_actions l [] b = b
run_actions l (a ∷ as') b = run_actions l as' (act l a.0 a.1 b)

run_actions-IsValid :
    (l : Letters) (actions : List (Context × Action)) (b : Box)
    → IsValid b
    → IsValid (run_actions l actions b)
unfolding run_actions
run_actions-IsValid l [] b v = v
run_actions-IsValid l (a ∷ as') b v =
    run_actions-IsValid l as' (act l a.0 a.1 b) (act-IsValid l a.0 a.1 b v)

abbrev pub closed_box : Box
closed_box = record { value = []; caret = 0; completion = none; hidden = true }

-- Through any actions from a closed popup, whatever the lists of the state are at each of them. If the popup shows in the end, the key Tab is taken and picks one of the items that it shows.
pub run_actions_picks :
    (l : Letters) (ctx : Context) (actions : List (Context × Action))
    → (run_actions l actions closed_box).hidden ≡ false
    → let b = run_actions l actions closed_box in
      (c : Completion) × (item : Item) × (b.completion ≡ some c)
      × (get_elem? c.items c.index ≡ some item)
      × (handle_keydown l ctx tab b ≡ (true, pick l ctx item b))
unfolding press pick_index
run_actions_picks l ctx actions h =
    let b = run_actions l actions closed_box in
    let v = run_actions-IsValid l actions closed_box (λ e. absurd (true_ne_false e)) h in
    elim (Option-cases (get_elem? v.0.items v.0.index)) [
      | inl e ↦ absurd (get_inside v.0.items v.0.index v.2 e)
      | inr e ↦
          (v.0, e.0, v.1, e.1, handle_keydown_shown l ctx tab v.0 b v.1 h ∙ rw (pick_index, e.1))
    ]
