-- ===== src/Unread/Classify.antt =====
-- web/static/unread.js: `classifyIncomingMessage` and the counting of unread messages.
use rivendell.Base.{
  ℕ, String, ◌≡◌, Bool, true, false, not, ◌&&◌, ◌||◌, Option, none, some, List, arith, ltb, is_some,
  same_id, length, filter, any,
}
use rivendell.IdMap
use rivendell.Model.{Message, State, me_id}
use rivendell.State.Counts.{is_muted}
use rivendell.State.Messages.{window}
use rivendell.Format.Mentions.{mentions_user}

-- What the DOM knows.
pub record View : Type 0 where
  pub active : Bool
  pub focused : Bool
  pub admin_panel_open : Bool

pub record Classification : Type 0 where
  pub is_new_from_me : Bool
  pub is_new_from_other : Bool
  pub mentioned : Bool
  pub pings_me : Bool
  pub muted : Bool
  pub count_unread : Bool
  pub count_mention : Bool
  pub ping : Bool

-- `(state.me || {}).username`
abbrev my_username : State → Option String
my_username s = elim s.me [ none ↦ none | some u ↦ u.username ]

-- The reply's parent is mine, by the payload or among the loaded messages.
unfoldable pub is_reply_to_me : State → Message → Bool
is_reply_to_me s m =
    is_some m.reply_to_id
    && (same_id m.reply_to_user_id (me_id s)
        || any (λ p. same_id (some p.id) m.reply_to_id && same_id p.user_id (me_id s))
            (window s m.channel_id))

abbrev in_dm : State → ℕ → Bool
in_dm s cid = elim (IdMap.get cid s.channels) [ none ↦ false | some ch ↦ ch.is_dm ]

-- `is_new` says that the event is message.new, not message.update.
unfoldable pub classify : State → Bool → Message → View → Classification
classify s is_new m view =
    let mine = same_id m.user_id (me_id s) in
    let from_other = is_new && not mine in
    let mentioned =
      from_other
      && (mentions_user m.content (my_username s) || (from_other && is_reply_to_me s m)) in
    let pings_me = from_other && not m.is_system && (in_dm s m.channel_id || mentioned) in
    let muted = is_muted s m.channel_id in
    let unseen = not view.active || not view.focused in
    let count_unread = from_other && not muted && unseen in
    record {
      is_new_from_me = is_new && mine;
      is_new_from_other = from_other;
      mentioned = mentioned;
      pings_me = pings_me;
      muted = muted;
      count_unread = count_unread;
      count_mention = count_unread && mentioned;
      ping = pings_me && not muted && (unseen || view.admin_panel_open);
    }

unfoldable pub should_insert_unread_marker : Bool → ℕ → ℕ → Bool
should_insert_unread_marker inserted marker_at id =
    not inserted && ltb 0 marker_at && ltb marker_at id

unfoldable pub unread_count_after : List Message → ℕ → Option ℕ → ℕ
unread_count_after messages cursor me =
    length (filter (λ m. ltb cursor m.id && not (same_id m.user_id me)) messages)

-- No message both counts against me and is mine; a muted channel raises nothing; a mention is
-- counted only with the message itself; a system line never alerts; what I am looking at counts
-- nothing, and alerts only behind the admin panel.
pub classify_lem :
    (s : State) (is_new : Bool) (m : Message) (view : View)
    → let c = classify s is_new m view in
      (c.count_mention ≡ true → (c.count_unread ≡ true) × (c.mentioned ≡ true))
      × (c.count_unread ≡ true
          → (is_new ≡ true) × (c.is_new_from_me ≡ false) × (is_muted s m.channel_id ≡ false))
      × (c.ping ≡ true
          → (is_new ≡ true)
            × (c.is_new_from_me ≡ false)
            × (m.is_system ≡ false)
            × (is_muted s m.channel_id ≡ false))
      × (view.active ≡ true
          → view.focused ≡ true
          → (c.count_unread ≡ false) × (c.ping ≡ true → view.admin_panel_open ≡ true))
unfolding classify
classify_lem s is_new m view =
    (λ h. ground arith, λ h. ground arith, λ h. ground arith, λ a f. ground arith)
