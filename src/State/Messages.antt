-- ===== src/State/Messages.antt =====
-- web/static/state.js: the loaded messages of each channel, a window kept ascending by id.
pub mod Window
pub mod Adding
pub mod Paging
pub mod Editing
use rivendell.Base.{
  ℕ, zero, suc, ◌+◌, ◌-◌, ◌*◌, ◌/◌, ◌%◌, ◌^◌, ◌≤◌, ◌<◌, min, max, String, ◌≡◌, refl, sym, ap, ap₂,
  subst, subst₂, ◌∙◌, ◌≢◌, ◌↔◌, ◌⊎◌, inl, inr, Bool, true, false, not, ◌&&◌, ◌||◌, Option, none,
  some, List, [], ◌∷◌, ◌++◌, map, arith, ltb, leb, ◌==◌, if◌then◌else◌, ltb→lt, leb→le, ==_iff,
  ==_refl, Bool-cases, get_or, or_else, is_some, Option-cases, same_id, same_id_refl, matches_id,
  length, get_elem?, filter, any, find, All, length-append, contains, append_nil, append_assoc,
}
use rivendell.IdMap
use rivendell.Model.{Reaction, Message, State}
use rivendell.Sort.{sort}

-- `(a, b) => a.id - b.id` gives at most 0.
abbrev pub id_le : Message → Message → Bool
id_le a b = leb a.id b.id

abbrev pub by_id : List Message → List Message
by_id = sort id_le

-- `m.id === id`
abbrev pub has_id : ℕ → Message → Bool
has_id id m = m.id == id

-- `state.messages[channelId] || []`
abbrev pub window : State → ℕ → List Message
window s cid = get_or (IdMap.get cid s.messages) []

abbrev pub put_window : State → ℕ → List Message → State
put_window s cid ms = record s { messages = IdMap.put cid ms s.messages }

-- `seen.has(m.id)` for the set of the ids in `ms`.
abbrev pub loaded : List Message → ℕ → Bool
loaded ms id = any (has_id id) ms

-- `ms.filter((m) => !seen.has(m.id))`
abbrev pub unseen : List Message → List Message → List Message
unseen seen = filter (λ m. not (loaded seen m.id))

unfoldable pub set_messages : State → ℕ → List Message → State
set_messages s cid list = put_window s cid (by_id list)

unfoldable pub prepend_messages : State → ℕ → List Message → State
prepend_messages s cid older =
    let existing = window s cid in put_window s cid (by_id (unseen existing older ++ existing))

unfoldable pub append_messages : State → ℕ → List Message → State
append_messages s cid newer =
    let existing = window s cid in put_window s cid (by_id (existing ++ unseen existing newer))

abbrev first_id : List Message → Option ℕ
first_id [] = none
first_id (m ∷ ms) = some m.id

abbrev last_id : List Message → Option ℕ
last_id [] = none
last_id (m ∷ []) = some m.id
last_id (m ∷ n ∷ ms) = last_id (n ∷ ms)

unfoldable pub oldest_message_id : State → ℕ → Option ℕ
oldest_message_id s cid = first_id (window s cid)

unfoldable pub newest_message_id : State → ℕ → Option ℕ
newest_message_id s cid = last_id (window s cid)

-- A payload without reactions or without `reply_to_user_id` keeps those of the loaded message.
abbrev pub merge : Message → Message → Message
merge prev msg = record msg {
  reactions = or_else msg.reactions prev.reactions;
  reply_to_user_id = or_else msg.reply_to_user_id prev.reply_to_user_id;
}

-- `next[idx] = merged` at the first index with the id.
unfoldable pub replace : Message → List Message → List Message
replace msg [] = []
replace msg (m ∷ ms) =
    let rest = replace msg ms in if has_id msg.id m then merge m msg ∷ ms else m ∷ rest

unfoldable pub add_to : List Message → Message → List Message
unfolding replace
add_to existing msg =
    if loaded existing msg.id then replace msg existing else by_id (existing ++ msg ∷ [])

unfoldable pub add_message : State → Message → State
add_message s msg = put_window s msg.channel_id (add_to (window s msg.channel_id) msg)

abbrev pub tombstone : ℕ → Message → Message
tombstone now m = record m { deleted_at = some now; content = ""; reactions = some [] }

unfoldable pub mark_in : ℕ → ℕ → List Message → List Message
mark_in now id = map (λ m. if has_id id m then tombstone now m else m)

unfoldable pub mark_message_deleted : State → ℕ → ℕ → ℕ → State
mark_message_deleted s cid id now = put_window s cid (mark_in now id (window s cid))

unfoldable pub react_in : ℕ → List Reaction → List Message → List Message
react_in id rs = map (λ m. if has_id id m then record m { reactions = some rs } else m)

unfoldable pub set_reactions : State → ℕ → ℕ → Option (List Reaction) → State
set_reactions s cid id rs = elim (IdMap.get cid s.messages) [
  | none ↦ s
  | some existing ↦
      if loaded existing id then put_window s cid (react_in id (get_or rs []) existing) else s
]
