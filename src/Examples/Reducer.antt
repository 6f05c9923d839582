-- ===== src/Examples/Reducer.antt =====
-- The reducer of web/static/state.js on the small world.
use mathlib.Core.List.{Perm}
use rivendell.Base.{ℕ, ◌≡◌, refl, true, false, some, List, [], ◌∷◌, map, arith, or_else, contains}
use rivendell.IdMap
use rivendell.Model.{Status, Channel}
use rivendell.Presence.Flicker.{shown, drop_keeps_shown}
use rivendell.Presence.{presence_decision}
use rivendell.State.Channels.{
  sort_channels, channel_le, channel_id, index_of, next_unread_channel_id, up, has_count,
}
use rivendell.State.Channels.Navigation.{Nearest, next_unread_channel_id-Nearest}
use rivendell.State.Channels.Ordering.{InOrder, sort_channels-InOrder}
use rivendell.State.Events.{apply_event, message_new}
use rivendell.State.Messages.{window, add_message, prepend_messages, append_messages}
use rivendell.State.Messages.Adding.{find-add_message, add_message_comm}
use rivendell.State.Messages.Paging.{prepend_messages_lem, append_messages-eq-prepend_messages}
use rivendell.State.Messages.Window.{find_id, IsWindow}
use rivendell.State.Typing.{set_typing, active_typers}
use rivendell.State.Typing.Laws.{active_typers-set_typing}
use rivendell.State.Users.{Presence, presence_matches, set_presence}
use rivendell.State.Valid.{IsValid}
use rivendell.State.Valid.Reached.{apply_event-IsValid}
use rivendell.Examples.Fixtures.{by_length, world, hello, reply, late}

world-IsValid : IsValid by_length world
unfolding sort_channels channel_le rivendell.Sort.sort rivendell.Sort.insert IdMap.values
world-IsValid = (
  omega arith,
  (refl, omega arith, omega arith),
  omega arith,
  omega arith,
  ((((λ e. cc), (tt, tt)), tt), (tt, tt)),
)

apply_event-IsValid_example :
    IsValid by_length (apply_event by_length world (message_new reply) 2500)
apply_event-IsValid_example =
    apply_event-IsValid by_length world (message_new reply) 2500 world-IsValid

find-add_message_example : find_id 11 (window (add_message world reply) 7) ≡ some reply
unfolding IdMap.get
find-add_message_example = find-add_message world reply 7 11

add_message_comm_example :
    add_message (add_message world reply) (record late { id = 12 })
    ≡ add_message (add_message world (record late { id = 12 })) reply
unfolding IdMap.get
add_message_comm_example =
    add_message_comm world reply (record late { id = 12 }) refl (omega arith) (omega arith)

prepend_messages_lem_example :
    IsWindow (window (prepend_messages world 7 (reply ∷ hello ∷ [])) 7)
    × ((j : ℕ)
        → find_id j (window (prepend_messages world 7 (reply ∷ hello ∷ [])) 7)
          ≡ or_else (find_id j (window world 7)) (find_id j (reply ∷ hello ∷ [])))
unfolding IdMap.get
prepend_messages_lem_example =
    prepend_messages_lem world 7 (reply ∷ hello ∷ []) (omega arith) (omega arith)

append_messages-eq-prepend_messages_example :
    append_messages world 7 (reply ∷ []) ≡ prepend_messages world 7 (reply ∷ [])
unfolding IdMap.get
append_messages-eq-prepend_messages_example =
    append_messages-eq-prepend_messages world 7 (reply ∷ []) (omega arith) (omega arith)

sort_channels-InOrder_example :
    (cs : List Channel) × (sort_channels by_length world.channels ≡ map channel_id cs)
    × Perm cs (IdMap.values world.channels)
    × InOrder by_length cs
sort_channels-InOrder_example = sort_channels-InOrder by_length world.channels

next_unread_channel_id-Nearest_example :
    Nearest
      (has_count world.unread)
      (7 ∷ 3 ∷ [])
      up
      (index_of (7 ∷ 3 ∷ []) (some 3))
      (next_unread_channel_id (7 ∷ 3 ∷ []) (some 3) world.unread up)
next_unread_channel_id-Nearest_example =
    next_unread_channel_id-Nearest (7 ∷ 3 ∷ []) (some 3) world.unread up

-- Upwards from the DM the regular channel with two unread messages comes first.
next_unread_up : next_unread_channel_id (7 ∷ 3 ∷ []) (some 3) world.unread up ≡ some 7
unfolding next_unread_channel_id IdMap.get
next_unread_up = refl

active_typers-set_typing_example :
    contains (active_typers (set_typing world 7 1 true 900) 7 1000 4000) 1 ≡ true
active_typers-set_typing_example =
    active_typers-set_typing by_length world 7 1 1 900 1000 4000 true world-IsValid

abbrev same_again : Presence
same_again = record { user_id = 2; online = true; status = Status.online; idle = false }

drop_keeps_shown_example : shown (set_presence world 2 true Status.online false) 2 ≡ shown world 2
unfolding presence_decision presence_matches IdMap.get
drop_keeps_shown_example = drop_keeps_shown world false same_again 2 refl
