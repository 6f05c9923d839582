-- ===== src/State/Valid/Reached.antt =====
-- Every realtime event keeps the invariant.
use rivendell.Base.{ℕ, inl, inr, true, false, not, ◌&&◌, some, Bool-cases, same_id}
use rivendell.Model.{State, me_id}
use rivendell.State.Channels.{Collation}
use rivendell.State.Counts.{set_muted}
use rivendell.State.Emojis.{upsert_emoji}
use rivendell.State.Events.{
  Event, presence_update, user_update, channel_new, channel_update, channel_archive, message_new,
  message_update, message_delete, member_remove, reaction_update, read_update, read_unread,
  mute_update, typing_update, emoji_add, emoji_delete, unknown, apply_event,
}
use rivendell.State.Users.{is_admin}
use rivendell.State.Valid.{IsValid}
use rivendell.State.Valid.Parts.{
  add_message-IsValid, mark_message_deleted-IsValid, set_reactions-IsValid, upsert_channel-IsValid,
  remove_channel-IsValid, message_arrives-IsValid, clear_typing_for_user-IsValid,
  clear_unread-IsValid, clear_mention-IsValid, set_unread-IsValid, set_last_read-IsValid,
  set_presence-IsValid, upsert_user-IsValid, remove_emoji-IsValid, set_typing-IsValid,
}

module _ (col : Collation) where
  -- A valid state stays valid under every event, whatever its payload and whenever it arrives.
  pub apply_event-IsValid :
      (s : State) (e : Event) (now : ℕ) → IsValid col s → IsValid col (apply_event col s e now)
  unfolding apply_event upsert_emoji set_muted
  apply_event-IsValid s (presence_update p) now v = elim (Bool-cases p.online) [
    | inl e ↦ rw e (set_presence-IsValid col s p.user_id true p.status p.idle v)
    | inr e ↦ rw e (
        clear_typing_for_user-IsValid col _ p.user_id
          (set_presence-IsValid col s p.user_id false p.status p.idle v))
  ]
  apply_event-IsValid s (user_update u) now v = upsert_user-IsValid col s u v
  apply_event-IsValid s (channel_new c) now v = upsert_channel-IsValid col s c v
  apply_event-IsValid s (channel_update c) now v = upsert_channel-IsValid col s c v
  apply_event-IsValid s (channel_archive cid) now v = remove_channel-IsValid col s cid v
  apply_event-IsValid s (message_new m) now v = message_arrives-IsValid col s m v
  apply_event-IsValid s (message_update m) now v = add_message-IsValid col s m v
  apply_event-IsValid s (message_delete cid id) now v =
      mark_message_deleted-IsValid col s cid id now v
  apply_event-IsValid s (member_remove cid uid) now v =
      elim (Bool-cases (same_id (some uid) (me_id s) && not (is_admin s.me))) [
        | inl e ↦ rw e (remove_channel-IsValid col s cid v)
        | inr e ↦ rw e v
      ]
  apply_event-IsValid s (reaction_update cid id rs) now v = set_reactions-IsValid col s cid id rs v
  apply_event-IsValid s (read_update cid id) now v =
      set_last_read-IsValid col _ cid id
        (clear_mention-IsValid col _ cid (clear_unread-IsValid col s cid v))
  apply_event-IsValid s (read_unread cid cursor) now v =
      set_unread-IsValid col _ cid _ (set_last_read-IsValid col s cid cursor v)
  apply_event-IsValid s (mute_update cid muted) now v = v
  apply_event-IsValid s (typing_update cid uid active) now v =
      set_typing-IsValid col s cid uid active now v
  apply_event-IsValid s (emoji_add e) now v = v
  apply_event-IsValid s (emoji_delete code) now v = remove_emoji-IsValid col s code v
  apply_event-IsValid s unknown now v = v
