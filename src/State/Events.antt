-- ===== src/State/Events.antt =====
-- web/static/state.js: `applyEvent`, which folds a realtime event into the state.
use rivendell.Base.{
  ℕ, String, Bool, false, not, ◌&&◌, Option, none, some, List, ltb, if◌then◌else◌, same_id,
  matches_id, length, filter,
}
use rivendell.IdMap
use rivendell.Model.{Reaction, User, Channel, Message, Emoji, State, me_id}
use rivendell.State.Channels.{Collation, upsert_channel, remove_channel}
use rivendell.State.Counts.{clear_unread, clear_mention, set_unread, set_last_read, set_muted}
use rivendell.State.Emojis.{upsert_emoji, remove_emoji}
use rivendell.State.Messages.{window, add_message, mark_message_deleted, set_reactions}
use rivendell.State.Typing.{typers, put_typers, set_typing, clear_typing_for_user}
use rivendell.State.Users.{Presence, upsert_user, is_admin, set_presence}

-- The events by their `type`, with the properties of the payload that the reducer reads.
pub data Event : Type 0 where
  presence_update : Presence → Event
  user_update : User → Event
  channel_new channel_update : Channel → Event
  channel_archive : ℕ → Event
  message_new message_update : Message → Event
  message_delete : ℕ → ℕ → Event
  member_remove : ℕ → ℕ → Event
  reaction_update : ℕ → ℕ → Option (List Reaction) → Event
  read_update : ℕ → ℕ → Event
  read_unread : ℕ → ℕ → Event
  mute_update : ℕ → Bool → Event
  typing_update : ℕ → ℕ → Bool → Event
  emoji_add : Emoji → Event
  emoji_delete : String → Event
  unknown : Event

-- A system line has no author, and the key undefined is none of the typers.
unfoldable pub stop_typing : State → ℕ → Option ℕ → State
stop_typing s cid none = put_typers s cid (typers s cid)
stop_typing s cid (some uid) = set_typing s cid uid false 0

-- `{ ...ch, last_message_at: at }`, if the channel is known.
unfoldable pub bump_channel : Collation → State → ℕ → ℕ → State
bump_channel col s cid at = elim (IdMap.get cid s.channels) [
  | none ↦ s
  | some ch ↦ upsert_channel col s (record ch { last_message_at = some at })
]

unfoldable pub message_arrives : Collation → State → Message → State
unfolding stop_typing bump_channel
message_arrives col s m =
    let s' = add_message s m in
    let s'' = stop_typing s' m.channel_id m.user_id in
    bump_channel col s'' m.channel_id m.created_at

-- The messages of others that the cursor has not passed.
unfoldable pub newer_of_others : State → ℕ → ℕ → ℕ
newer_of_others s cid cursor =
    length (filter (λ m. ltb cursor m.id && not (matches_id m.user_id (me_id s))) (window s cid))

unfoldable pub apply_event : Collation → State → Event → ℕ → State
unfolding message_arrives newer_of_others
apply_event col s (presence_update p) now =
    let s' = set_presence s p.user_id p.online p.status p.idle in
    if p.online then s' else clear_typing_for_user s' p.user_id
apply_event col s (user_update u) now = upsert_user s u
apply_event col s (channel_new c) now = upsert_channel col s c
apply_event col s (channel_update c) now = upsert_channel col s c
apply_event col s (channel_archive cid) now = remove_channel col s cid
apply_event col s (message_new m) now = message_arrives col s m
apply_event col s (message_update m) now = add_message s m
apply_event col s (message_delete cid id) now = mark_message_deleted s cid id now
apply_event col s (member_remove cid uid) now =
    if same_id (some uid) (me_id s) && not (is_admin s.me) then remove_channel col s cid else s
apply_event col s (reaction_update cid id rs) now = set_reactions s cid id rs
apply_event col s (read_update cid id) now =
    set_last_read (clear_mention (clear_unread s cid) cid) cid id
apply_event col s (read_unread cid cursor) now =
    set_unread (set_last_read s cid cursor) cid (newer_of_others s cid cursor)
apply_event col s (mute_update cid muted) now = set_muted s cid muted
apply_event col s (typing_update cid uid active) now = set_typing s cid uid active now
apply_event col s (emoji_add e) now = upsert_emoji s e
apply_event col s (emoji_delete code) now = remove_emoji s code
apply_event col s unknown now = s
