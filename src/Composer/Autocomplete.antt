-- ===== src/Composer/Autocomplete.antt =====
-- web/static/autocomplete.js: the candidates and the popup of the composer. What the browser does
-- with letters and with the order of names is a parameter.
pub mod Picking
pub mod Popup
use rivendell.Base.{
  ℕ, zero, suc, ◌+◌, ◌-◌, ◌*◌, ◌/◌, ◌%◌, ◌^◌, ◌≤◌, ◌<◌, min, max, String, ◌≡◌, refl, sym, ap, ap₂,
  subst, subst₂, ◌∙◌, ◌≢◌, ◌↔◌, ◌⊎◌, inl, inr, Bool, true, false, not, ◌&&◌, ◌||◌, Option, none,
  some, List, [], ◌∷◌, ◌++◌, map, arith, ltb, leb, ◌==◌, if◌then◌else◌, ltb→lt, leb→le, ==_iff,
  ==_refl, Bool-cases, get_or, or_else, is_some, Option-cases, same_id, same_id_refl, matches_id,
  length, get_elem?, filter, any, find, All, length-append, contains, append_nil, append_assoc,
}
use rivendell.Sort.{sort}
use rivendell.Regex.{Text, prefix}
use rivendell.Html.{starts_with}
use rivendell.Regex.Classes.{same_text}
use rivendell.Format.Mentions.{codes, scan, lower}
use rivendell.Format.Queries.{Query, at_query, colon_query, hash_query}
use rivendell.Composer.Markers.{drop}

-- `toLowerCase`, and whether `localeCompare` gives at most 0.
pub record Letters : Type 0 where
  pub lower_case : Text → Text
  pub name_le : Text → Text → Bool

pub record Person : Type 0 where
  pub id : ℕ
  pub username : Text
  pub display_name : Option Text
  pub is_active : Option Bool

pub data Item : Type 0 where
  person : Person → Item
  emoji : Text → Option Text → Item
  channel : Text → Item

-- The lists of the state, and the members of the active channel if they are known.
pub record Context : Type 0 where
  pub users : List Person
  pub me_id : Option ℕ
  pub active_member_ids : Option (List ℕ)
  pub builtins : List (Text × Text)
  pub emojis : List Text
  pub channels : List (Text × Bool)

abbrev pub has_text : List Text → Text → Bool
has_text [] t = false
has_text (s ∷ ss) t = same_text s t || has_text ss t

-- The users that the text mentions elsewhere.
abbrev pub mentioned_from : ℕ → List (ℕ × Text) → List Text
mentioned_from trigger_at [] = []
mentioned_from trigger_at (m ∷ ms) =
    let rest = mentioned_from trigger_at ms in
    if m.0 == trigger_at then rest else map lower m.1 ∷ rest

unfoldable pub mentioned_usernames : Text → ℕ → List Text
unfolding scan lower
mentioned_usernames text trigger_at = mentioned_from trigger_at (scan true 0 0 text)

abbrev pub is_false : Option Bool → Bool
is_false (some b) = not b
is_false none = false

abbrev pub is_member : Option (List ℕ) → ℕ → Bool
is_member none id = true
is_member (some ids) id = contains ids id

abbrev pub shown_as : Letters → Text → Option Text → Bool
shown_as l q none = false
shown_as l q (some []) = false
shown_as l q (some (c ∷ cs)) = starts_with q (l.lower_case (c ∷ cs))

unfoldable pub fits : Letters → Text → Context → List Text → Person → Bool
fits l q ctx already u =
    not (is_false u.is_active)
    && (not (same_id (some u.id) ctx.me_id)
        && (not (has_text already (l.lower_case u.username))
            && (is_member ctx.active_member_ids u.id
                && (starts_with q (l.lower_case u.username) || shown_as l q u.display_name))))

-- `slice(0, 8)`
abbrev pub take {ℓ} : {A : Type ℓ} → ℕ → List A → List A
take zero xs = []
take (suc n) [] = []
take (suc n) (x ∷ xs) = x ∷ take n xs

unfoldable pub filter_mention_candidates : Letters → Context → Text → List Text → List Person
unfolding fits
filter_mention_candidates l ctx partial already = take 8 (
    sort (λ a b. l.name_le a.username b.username)
      (filter (fits l (l.lower_case partial) ctx already) ctx.users))

abbrev pub customs : List Text → List (Text × Option Text)
customs codes = map (λ c. (c, none)) codes

unfoldable pub filter_emoji_candidates :
    Letters → Text → List (Text × Text) → List Text → List (Text × Option Text)
filter_emoji_candidates l partial builtins custom_codes =
    let q = l.lower_case partial in
    take 8 (
      sort (λ a b. l.name_le a.0 b.0)
        (map (λ e. (e.0, some e.1)) (filter (λ (e : Text × Text). starts_with q e.0) builtins)
          ++ customs (filter (starts_with q) custom_codes)))

unfoldable pub filter_channel_candidates : Letters → List (Text × Bool) → Text → List Text
filter_channel_candidates l channels partial =
    let q = l.lower_case partial in
    take 8 (
      sort l.name_le (
        map (λ (c : Text × Bool). c.0)
          (filter (λ (c : Text × Bool). not c.1 && starts_with q c.0) channels)))

unfoldable pub clamp_index : ℕ → ℕ → ℕ
clamp_index prev_index item_count = min prev_index (item_count - 1)

pub record Completion : Type 0 where
  pub query : Query
  pub items : List Item
  pub index : ℕ

pub record Box : Type 0 where
  pub value : Text
  pub caret : ℕ
  pub completion : Option Completion
  pub hidden : Bool

-- The query, and the items.
unfoldable pub detect_completion : Letters → Context → Text → ℕ → Option (Query × List Item)
unfolding at_query colon_query hash_query mentioned_usernames filter_mention_candidates
    filter_emoji_candidates filter_channel_candidates
detect_completion l ctx value pos = elim (at_query value pos) [
  | some q ↦ some (
    q,
    map person (filter_mention_candidates l ctx q.partial (mentioned_usernames value q.start)),
  )
  | none ↦ elim (colon_query value pos) [
    | some q ↦
        some (
          q,
          map (λ e. emoji e.0 e.1) (filter_emoji_candidates l q.partial ctx.builtins ctx.emojis),
        )
    | none ↦ elim (hash_query value pos) [
      | some q ↦ some (q, map channel (filter_channel_candidates l ctx.channels q.partial))
      | none ↦ none
    ]
  ]
]

abbrev pub is_nothing : List Item → Bool
is_nothing [] = true
is_nothing (x ∷ xs) = false

abbrev pub index_of_completion : Option Completion → ℕ
index_of_completion none = 0
index_of_completion (some c) = c.index

unfoldable pub close_popup : Box → Box
close_popup b = record b { completion = none; hidden = true }

-- renderPopup hides an empty list.
unfoldable pub update_popup : Letters → Context → Box → Box
unfolding detect_completion clamp_index close_popup
update_popup l ctx b = elim (detect_completion l ctx b.value b.caret) [
  | none ↦ close_popup b
  | some d ↦ record b {
    completion = some (record {
      query = d.0;
      items = d.1;
      index = clamp_index (index_of_completion b.completion) (length d.1);
    });
    hidden = is_nothing d.1;
  }
]

abbrev pub item_text : Item → Text
item_text (person u) = 64 ∷ (u.username ++ 32 ∷ [])
item_text (channel name) = 35 ∷ (name ++ 32 ∷ [])
item_text (emoji code glyph) = 58 ∷ (code ++ 58 ∷ 32 ∷ [])

-- The item in the place of the query, and the popup closed.
unfoldable pub put_item : Item → Completion → Box → Box
unfolding close_popup
put_item item c b =
    let text = item_text item in
    close_popup (record b {
      value = prefix c.query.start b.value ++ (text ++ drop b.caret b.value);
      caret = c.query.start + length text;
    })

-- It ends with an `input` event.
unfoldable pub pick : Letters → Context → Item → Box → Box
unfolding update_popup put_item
pick l ctx item b = elim b.completion [ none ↦ b | some c ↦ update_popup l ctx (put_item item c b) ]

pub data Key : Type 0 where
  arrow_down arrow_up tab enter shift_enter escape other_key : Key

abbrev pub move_to : (Completion → ℕ) → Completion → Box → Box
move_to f c b = record b {
  completion = some (record c { index = f c });
  hidden = is_nothing c.items;
}

unfoldable pub pick_index : Letters → Context → Completion → Box → Box
unfolding pick
pick_index l ctx c b = elim (get_elem? c.items c.index) [ none ↦ b | some item ↦ pick l ctx item b ]

-- Whether the key has been taken, and what it does.
unfoldable pub press : Letters → Context → Key → Completion → Box → Bool × Box
unfolding pick_index close_popup
press l ctx arrow_down c b = (true, move_to (λ c. min (c.index + 1) (length c.items - 1)) c b)
press l ctx arrow_up c b = (true, move_to (λ c. c.index - 1) c b)
press l ctx tab c b = (true, pick_index l ctx c b)
press l ctx enter c b = (true, pick_index l ctx c b)
press l ctx shift_enter c b = (false, b)
press l ctx escape c b = (true, close_popup b)
press l ctx other_key c b = (false, b)

-- `popup.hidden || !completion`
abbrev pub if_shown : (Completion → Bool × Box) → Option Completion → Bool → Box → Bool × Box
if_shown f none hidden b = (false, b)
if_shown f (some c) true b = (false, b)
if_shown f (some c) false b = f c

unfoldable pub handle_keydown : Letters → Context → Key → Box → Bool × Box
unfolding press
handle_keydown l ctx key b = if_shown (λ c. press l ctx key c b) b.completion b.hidden b

-- Typing leaves a text and a caret; a caret can also move alone, which is no `input` event; a
-- keystroke; the end of the wait after a blur; a click on an item.
pub data Action : Type 0 where
  typed : Text → ℕ → Action
  caret_moved : ℕ → Action
  key : Key → Action
  blurred : Action
  clicked : Item → Action

unfoldable pub act : Letters → Context → Action → Box → Box
unfolding update_popup handle_keydown close_popup pick
act l ctx (typed value caret) b = update_popup l ctx (record b { value = value; caret = caret })
act l ctx (caret_moved caret) b = record b { caret = caret }
act l ctx (key k) b = (handle_keydown l ctx k b).1
act l ctx blurred b = close_popup b
act l ctx (clicked item) b = pick l ctx item b
