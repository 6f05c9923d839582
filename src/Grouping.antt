-- ===== src/Grouping.antt =====
-- web/static/grouping.js and the loop of `renderMessages` in web/static/app.js: under which message
-- a message is grouped. Times are those of `getTime`.
use rivendell.Base.{
  ℕ, ◌+◌, ◌≡◌, refl, sym, ap, ◌∙◌, Bool, true, not, ◌&&◌, Option, none, some, List, [], ◌∷◌, arith,
  ltb, if◌then◌else◌, get_or, is_some, same_id, All, contains,
}
use rivendell.Model.{Message}

-- `prevUserId` and `prevTime`.
abbrev pub Anchor : Type 0
Anchor = Option ℕ × ℕ

abbrev pub no_anchor : Anchor
no_anchor = (none, 0)

-- `msgTime - prevTime < windowMs`
unfoldable pub should_group_message : Anchor → Message → ℕ → Bool
should_group_message prev m window_ms =
    same_id m.user_id prev.0 && ltb m.created_at (window_ms + prev.1) && not (is_some m.reply_to_id)

-- The walk back from a message: the ones before it, the nearest first.
unfoldable pub grouping_anchor : (ℕ → Bool) → List Message → Option Anchor
grouping_anchor is_live [] = none
grouping_anchor is_live (p ∷ ps) =
    let rest = grouping_anchor is_live ps in
    if p.is_system
    then none
    else if is_some p.deleted_at
    then (if is_live p.id then none else rest)
    else some (p.user_id, p.created_at)

-- The accumulators `lastUser` and `lastTime` after a row. A run of deleted rows resets them if one
-- of its rows is drawn.
unfoldable pub after_row : (ℕ → Bool) → Anchor → Message → Anchor
after_row is_live last m =
    if is_some m.deleted_at
    then (if is_live m.id then no_anchor else last)
    else if m.is_system
    then no_anchor
    else (m.user_id, m.created_at)

unfoldable pub after_rows : (ℕ → Bool) → Anchor → List Message → Anchor
after_rows is_live last [] = last
after_rows is_live last (m ∷ ms) = after_rows is_live (after_row is_live last m) ms

-- The ids of `live_deleted` that stand on a deleted row of a window.
unfoldable pub still_loaded : List ℕ → List Message → List ℕ
still_loaded live [] = []
still_loaded live (m ∷ ms) =
    let rest = still_loaded live ms in
    if is_some m.deleted_at && contains live m.id then m.id ∷ rest else rest

abbrev reverse_onto : List Message → List Message → List Message
reverse_onto [] acc = acc
reverse_onto (m ∷ ms) acc = reverse_onto ms (m ∷ acc)

-- The messages before one, the nearest first.
abbrev pub backwards : List Message → List Message
backwards ms = reverse_onto ms []

-- A system line that is deleted is none of the rows.
abbrev pub IsPlain : Message → Type 0
IsPlain m = m.is_system ≡ true → m.deleted_at ≡ none

abbrev pub anchor_of : Option Anchor → Anchor
anchor_of o = get_or o no_anchor

row_lem :
    (is_live : ℕ → Bool) (m : Message) (before : List Message)
    → IsPlain m
    → after_row is_live (anchor_of (grouping_anchor is_live before)) m
      ≡ anchor_of (grouping_anchor is_live (m ∷ before))
unfolding after_row grouping_anchor
row_lem is_live m before h = ground arith

rows_lem :
    (is_live : ℕ → Bool) (ms before : List Message)
    → All IsPlain ms
    → after_rows is_live (anchor_of (grouping_anchor is_live before)) ms
      ≡ anchor_of (grouping_anchor is_live (reverse_onto ms before))
unfolding after_rows
rows_lem is_live [] before h = refl
rows_lem is_live (m ∷ ms) before h =
    ap (λ a. after_rows is_live a ms) (row_lem is_live m before h.0)
    ∙ rows_lem is_live ms (m ∷ before) h.1

-- Where no system line is deleted, the walk back from a message finds exactly the author and the
-- time that the rendering loop holds when it reaches the message.
pub grouping_anchor-after_rows :
    (is_live : ℕ → Bool) (ms : List Message)
    → All IsPlain ms
    → anchor_of (grouping_anchor is_live (backwards ms)) ≡ after_rows is_live no_anchor ms
unfolding grouping_anchor
grouping_anchor-after_rows is_live ms h = sym (rows_lem is_live ms [] h)
