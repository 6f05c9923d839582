-- ===== src/State/Counts.antt =====
-- web/static/state.js: unread and mention counts, read cursors and muted channels.
pub mod Totals
use rivendell.Base.{
  ℕ, zero, suc, ◌+◌, ◌-◌, ◌*◌, ◌/◌, ◌%◌, ◌^◌, ◌≤◌, ◌<◌, min, max, String, ◌≡◌, refl, sym, ap, ap₂,
  subst, subst₂, ◌∙◌, ◌≢◌, ◌↔◌, ◌⊎◌, inl, inr, Bool, true, false, not, ◌&&◌, ◌||◌, Option, none,
  some, List, [], ◌∷◌, ◌++◌, map, arith, ltb, leb, ◌==◌, if◌then◌else◌, ltb→lt, leb→le, ==_iff,
  ==_refl, Bool-cases, get_or, or_else, is_some, Option-cases, same_id, same_id_refl, matches_id,
  length, get_elem?, filter, any, find, All, length-append, contains, append_nil, append_assoc,
}
use rivendell.IdMap
use rivendell.IdMap.{IdMap}
use rivendell.Model.{ChannelUnread, State}

-- `counts[id] || 0`; a count is truthy when it is not 0.
abbrev pub count : IdMap ℕ → ℕ → ℕ
count m cid = get_or (IdMap.get cid m) 0

unfoldable pub bump_unread : State → ℕ → State
bump_unread s cid = record s { unread = IdMap.put cid (count s.unread cid + 1) s.unread }

unfoldable pub clear_unread : State → ℕ → State
clear_unread s cid =
    if count s.unread cid == 0 then s else record s { unread = IdMap.delete cid s.unread }

-- `state.unread[channelId] === n`
abbrev is_count : IdMap ℕ → ℕ → ℕ → Bool
is_count m cid n = same_id (IdMap.get cid m) (some n)

unfoldable pub set_unread : State → ℕ → ℕ → State
unfolding clear_unread
set_unread s cid n =
    if n == 0
    then clear_unread s cid
    else if is_count s.unread cid n
    then s
    else record s { unread = IdMap.put cid n s.unread }

unfoldable pub bump_mention : State → ℕ → State
bump_mention s cid = record s { mentions = IdMap.put cid (count s.mentions cid + 1) s.mentions }

unfoldable pub clear_mention : State → ℕ → State
clear_mention s cid =
    if count s.mentions cid == 0 then s else record s { mentions = IdMap.delete cid s.mentions }

unfoldable pub set_last_read : State → ℕ → ℕ → State
set_last_read s cid id =
    if is_count s.last_read cid id then s else record s { last_read = IdMap.put cid id s.last_read }

-- `if (n) m[id] = n`
abbrev put_count : ℕ → ℕ → IdMap ℕ → IdMap ℕ
put_count cid n m = if n == 0 then m else IdMap.put cid n m

unfoldable pub summarize : List ChannelUnread → State → State
summarize [] s = s
summarize (c ∷ cs) s = summarize cs (record s {
  unread = put_count c.channel_id c.unread s.unread;
  mentions = put_count c.channel_id c.mentions s.mentions;
  last_read = put_count c.channel_id c.last_read_message_id s.last_read;
})

unfoldable pub set_unread_summary : State → List ChannelUnread → State
unfolding summarize
set_unread_summary s channels = summarize channels (record s { unread = []; mentions = [] })

unfoldable pub total_unread : State → ℕ
total_unread s = IdMap.sum s.unread

unfoldable pub total_mentions : State → ℕ
total_mentions s = IdMap.sum s.mentions

abbrev mute_all : List ℕ → IdMap Bool → IdMap Bool
mute_all [] m = m
mute_all (id ∷ ids) m = mute_all ids (IdMap.put id true m)

unfoldable pub set_muted_channels : State → List ℕ → State
set_muted_channels s ids = record s { muted = mute_all ids [] }

unfoldable pub set_muted : State → ℕ → Bool → State
set_muted s cid now_muted = record s {
  muted = if now_muted then IdMap.put cid true s.muted else IdMap.delete cid s.muted;
}

unfoldable pub is_muted : State → ℕ → Bool
is_muted s cid = get_or (IdMap.get cid s.muted) false
