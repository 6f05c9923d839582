-- ===== src/Examples/Fixtures.antt =====
-- A small world: two users, a regular channel and a DM, and a few messages.
use rivendell.Base.{ℕ, ◌≡◌, true, false, none, some, [], ◌∷◌, arith, leb, length}
use rivendell.Format.Mentions.{codes}
use rivendell.Model.{Role, Status, User, Channel, Message, State, initial_state}
use rivendell.State.Channels.{Collation}

-- Names compared by their length alone.
pub len_total : (a b : ℕ) → leb a b ≡ false → leb b a ≡ true
len_total a b h = ground arith

pub len_trans : (a b c : ℕ) → leb a b ≡ true → leb b c ≡ true → leb a c ≡ true
len_trans a b c h k = ground arith

abbrev pub by_length : Collation
by_length = record {
  name_le = λ a b. leb (length (codes a)) (length (codes b));
  total = λ a b. len_total (length (codes a)) (length (codes b));
  trans = λ a b c. len_trans (length (codes a)) (length (codes b)) (length (codes c));
}

abbrev pub frodo : User
frodo = record {
  id = 1;
  username = some "frodo";
  display_name = some "Frodo";
  role = some Role.member;
  online = some true;
  status = some Status.online;
  idle = some false;
  is_active = some true;
}

abbrev pub sam : User
sam = record frodo { id = 2; username = some "sam"; display_name = some "Sam" }

abbrev pub shire : Channel
shire = record {
  id = 7;
  name = "shire";
  is_dm = false;
  is_private = false;
  position = 0;
  created_at = 100;
  last_message_at = none;
}

abbrev pub dm : Channel
dm = record shire { id = 3; name = "dm-1-2"; is_dm = true }

abbrev pub hello : Message
hello = record {
  id = 10;
  channel_id = 7;
  user_id = some 2;
  content = "hello @frodo";
  reply_to_id = none;
  reply_to_user_id = none;
  created_at = 1000;
  edited_at = none;
  deleted_at = none;
  pinned_at = none;
  is_system = false;
  reactions = none;
}

abbrev pub reply : Message
reply = record hello { id = 11; content = "again"; created_at = 2000 }

abbrev pub late : Message
late = record hello { id = 15; content = "late"; created_at = 3000 }

abbrev pub world : State
world = record initial_state {
  me = some frodo;
  users = (1, frodo) ∷ (2, sam) ∷ [];
  channels = (3, dm) ∷ (7, shire) ∷ [];
  channel_order = 7 ∷ 3 ∷ [];
  messages = (7, hello ∷ late ∷ []) ∷ [];
  unread = (7, 2) ∷ [];
  typing = (7, (2, 500) ∷ []) ∷ [];
}
