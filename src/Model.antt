-- ===== src/Model.antt =====
-- The records that the server sends and web/static/state.js keeps. A property that a JSON object
-- may lack is an `Option`; a timestamp is the number of milliseconds that `getTime` gives for it.
use rivendell.Base.{ℕ, String, Bool, Option, none, some, List, []}
use rivendell.IdMap.{IdMap}
use rivendell.StrMap.{StrMap}

-- The values of a user's `role` and `status`.
pub data Role : Type 0 where
  admin moderator member : Role

pub data Status : Type 0 where
  online away dnd offline : Status

pub record User : Type 0 where
  pub id : ℕ
  pub username : Option String
  pub display_name : Option String
  pub role : Option Role
  pub online : Option Bool
  pub status : Option Status
  pub idle : Option Bool
  pub is_active : Option Bool

pub record Channel : Type 0 where
  pub id : ℕ
  pub name : String
  pub is_dm : Bool
  pub is_private : Bool
  pub position : ℕ
  pub created_at : ℕ
  pub last_message_at : Option ℕ

pub record Reaction : Type 0 where
  pub emoji : String
  pub user_ids : List ℕ

-- `user_id` is absent on a system line.
pub record Message : Type 0 where
  pub id : ℕ
  pub channel_id : ℕ
  pub user_id : Option ℕ
  pub content : String
  pub reply_to_id : Option ℕ
  pub reply_to_user_id : Option ℕ
  pub created_at : ℕ
  pub edited_at : Option ℕ
  pub deleted_at : Option ℕ
  pub pinned_at : Option ℕ
  pub is_system : Bool
  pub reactions : Option (List Reaction)

pub record Emoji : Type 0 where
  pub id : ℕ
  pub shortcode : String
  pub created_at : ℕ

-- One element of the `channels` array of /api/unread.
pub record ChannelUnread : Type 0 where
  pub channel_id : ℕ
  pub unread : ℕ
  pub mentions : ℕ
  pub last_read_message_id : ℕ

-- The state that `initialState` makes and every reducer returns anew. `muted` holds `true` alone;
-- `typing` holds, for a channel and a user, the time of the last refresh.
pub record State : Type 0 where
  pub me : Option User
  pub users : IdMap User
  pub channels : IdMap Channel
  pub channel_order : List ℕ
  pub messages : IdMap (List Message)
  pub active_channel_id : Option ℕ
  pub unread : IdMap ℕ
  pub mentions : IdMap ℕ
  pub muted : IdMap Bool
  pub last_read : IdMap ℕ
  pub typing : IdMap (IdMap ℕ)
  pub emojis : StrMap Emoji

abbrev pub initial_state : State
initial_state = record {
  me = none;
  users = [];
  channels = [];
  channel_order = [];
  messages = [];
  active_channel_id = none;
  unread = [];
  mentions = [];
  muted = [];
  last_read = [];
  typing = [];
  emojis = [];
}

-- `state.me && state.me.id`
abbrev pub me_id : State → Option ℕ
me_id s = elim s.me [ none ↦ none | some u ↦ some u.id ]
