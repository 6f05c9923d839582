-- ===== src/State/Channels.antt =====
-- web/static/state.js: the channels, their order in the sidebar, and keyboard navigation.
pub mod Ordering
pub mod Navigation
use rivendell.Base.{
  ℕ, zero, suc, ◌+◌, ◌-◌, ◌*◌, ◌/◌, ◌%◌, ◌^◌, ◌≤◌, ◌<◌, min, max, String, ◌≡◌, refl, sym, ap, ap₂,
  subst, subst₂, ◌∙◌, ◌≢◌, ◌↔◌, ◌⊎◌, inl, inr, Bool, true, false, not, ◌&&◌, ◌||◌, Option, none,
  some, List, [], ◌∷◌, ◌++◌, map, arith, ltb, leb, ◌==◌, if◌then◌else◌, ltb→lt, leb→le, ==_iff,
  ==_refl, Bool-cases, get_or, or_else, is_some, Option-cases, same_id, same_id_refl, matches_id,
  length, get_elem?, filter, any, find, All, length-append, contains, append_nil, append_assoc,
}
use rivendell.IdMap
use rivendell.IdMap.{IdMap}
use rivendell.Model.{Channel, State}
use rivendell.Sort.{sort}

-- `String.prototype.localeCompare`, which the browser's locale decides. ECMA-402 asks for a
-- consistent comparator: a total preorder.
pub record Collation : Type 0 where
  -- `a.localeCompare(b) <= 0`
  pub name_le : String → String → Bool
  pub total : (a b : String) → name_le a b ≡ false → name_le b a ≡ true
  pub trans : (a b c : String) → name_le a b ≡ true → name_le b c ≡ true → name_le a c ≡ true

abbrev pub recency : Channel → ℕ
recency c = get_or c.last_message_at c.created_at

-- The comparator gives at most 0: regular channels by position and name, then DMs by recency.
unfoldable pub channel_le : Collation → Channel → Channel → Bool
channel_le col a b =
    if a.is_dm && b.is_dm
    then leb (recency b) (recency a)
    else if a.is_dm
    then false
    else if b.is_dm
    then true
    else if a.position == b.position
    then col.name_le a.name b.name
    else ltb a.position b.position

abbrev pub channel_id : Channel → ℕ
channel_id c = c.id

unfoldable pub sort_channels : Collation → IdMap Channel → List ℕ
sort_channels col channels = map channel_id (sort (channel_le col) (IdMap.values channels))

abbrev add_channels : List Channel → IdMap Channel → IdMap Channel
add_channels [] m = m
add_channels (c ∷ cs) m = add_channels cs (IdMap.put c.id c m)

abbrev pub with_channels : Collation → State → IdMap Channel → State
with_channels col s channels = record s {
  channels = channels;
  channel_order = sort_channels col channels;
}

unfoldable pub set_channels : Collation → State → List Channel → State
set_channels col s list = with_channels col s (add_channels list [])

unfoldable pub upsert_channel : Collation → State → Channel → State
upsert_channel col s c = with_channels col s (IdMap.put c.id c s.channels)

-- `order[0] || null`: an id 0 would be falsy.
abbrev pub first_or_null : List ℕ → Option ℕ
first_or_null [] = none
first_or_null (id ∷ ids) = if id == 0 then none else some id

unfoldable pub remove_channel : Collation → State → ℕ → State
remove_channel col s cid =
    let next = with_channels col s (IdMap.delete cid s.channels) in
    if same_id s.active_channel_id (some cid)
    then record next { active_channel_id = first_or_null next.channel_order }
    else next

unfoldable pub set_active_channel : State → Option ℕ → State
set_active_channel s cid = record s { active_channel_id = cid }

-- The callers' delta, -1 and +1.
pub data Delta : Type 0 where
  up down : Delta

-- `order.indexOf(id)`, with `none` for -1.
unfoldable pub index_of : List ℕ → Option ℕ → Option ℕ
index_of [] id = none
index_of (x ∷ xs) id =
    let rest = index_of xs id in
    if same_id id (some x) then some 0 else elim rest [ none ↦ none | some i ↦ some (suc i) ]

-- The index one step on from the active one, if it is not below 0.
abbrev pub step_index : List ℕ → Option ℕ → Delta → Option ℕ
step_index order none down = some 0
step_index order none up = some (length order - 1)
step_index order (some i) down = some (suc i)
step_index order (some zero) up = none
step_index order (some (suc i)) up = some i

unfoldable pub next_channel_id : List ℕ → Option ℕ → Delta → Option ℕ
unfolding index_of
next_channel_id [] active delta = none
next_channel_id (x ∷ xs) active delta =
    elim (step_index (x ∷ xs) (index_of (x ∷ xs) active) delta) [
      | none ↦ none
      | some i ↦ get_elem? (x ∷ xs) i
    ]

-- The loop upwards over the ids before index `k`, and the loop downwards over those after.
unfoldable pub scan_up : (ℕ → Bool) → List ℕ → ℕ → Option ℕ
scan_up truthy order zero = none
scan_up truthy order (suc k) =
    let rest = scan_up truthy order k in
    elim (get_elem? order k) [ none ↦ rest | some id ↦ if truthy id then some id else rest ]

unfoldable pub scan_down : (ℕ → Bool) → List ℕ → Option ℕ
scan_down truthy [] = none
scan_down truthy (id ∷ ids) = let rest = scan_down truthy ids in if truthy id then some id else rest

abbrev pub has_count : IdMap ℕ → ℕ → Bool
has_count m id = not (get_or (IdMap.get id m) 0 == 0)

abbrev pub drop : ℕ → List ℕ → List ℕ
drop zero xs = xs
drop (suc n) [] = []
drop (suc n) (x ∷ xs) = drop n xs

unfoldable pub next_unread_channel_id : List ℕ → Option ℕ → IdMap ℕ → Delta → Option ℕ
unfolding index_of scan_up scan_down
next_unread_channel_id order active unread down = elim (index_of order active) [
  | none ↦ scan_down (has_count unread) order
  | some i ↦ scan_down (has_count unread) (drop (suc i) order)
]
next_unread_channel_id order active unread up = elim (index_of order active) [
  | none ↦ scan_up (has_count unread) order (length order)
  | some i ↦ scan_up (has_count unread) order i
]
