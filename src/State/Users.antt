-- ===== src/State/Users.antt =====
-- web/static/state.js: the roster, presence and roles.
use rivendell.Base.{
  ℕ, String, Bool, true, false, not, ◌&&◌, Option, none, some, List, [], ◌∷◌, get_or, or_else,
}
use rivendell.IdMap
use rivendell.Model.{Role, Status, User, State}

unfoldable pub set_me : State → User → State
set_me s me = record s { me = some me }

abbrev add_users : List User → IdMap.IdMap User → IdMap.IdMap User
add_users [] m = m
add_users (u ∷ us) m = add_users us (IdMap.put u.id u m)

unfoldable pub set_users : State → List User → State
set_users s list = record s { users = add_users list [] }

-- `{ ...prev, ...user }`
abbrev pub merge_user : User → User → User
merge_user prev user = record {
  id = user.id;
  username = or_else user.username prev.username;
  display_name = or_else user.display_name prev.display_name;
  role = or_else user.role prev.role;
  online = or_else user.online prev.online;
  status = or_else user.status prev.status;
  idle = or_else user.idle prev.idle;
  is_active = or_else user.is_active prev.is_active;
}

unfoldable pub upsert_user : State → User → State
upsert_user s user =
    let merged : User = elim (IdMap.get user.id s.users) [
      | none ↦ user
      | some prev ↦ merge_user prev user
    ] in
    record s { users = IdMap.put user.id merged s.users }

-- A user with no `display_name` would show as undefined, the `none` within.
unfoldable pub display_name_of : State → ℕ → Option String
display_name_of s uid = elim (IdMap.get uid s.users) [
  | none ↦ some "Someone"
  | some u ↦ u.display_name
]

-- The payload of presence.update.
pub record Presence : Type 0 where
  pub user_id : ℕ
  pub online : Bool
  pub status : Status
  pub idle : Bool

abbrev truthy : Option Bool → Bool
truthy o = get_or o false

same_bool : Bool → Bool → Bool
same_bool true b = b
same_bool false b = not b

same_status : Option Status → Status → Bool
same_status (some Status.online) Status.online = true
same_status (some Status.away) Status.away = true
same_status (some Status.dnd) Status.dnd = true
same_status (some Status.offline) Status.offline = true
same_status _ _ = false

unfoldable pub presence_matches : Option User → Option Presence → Bool
unfolding same_bool same_status
presence_matches (some user) (some p) =
    same_bool (truthy user.online) p.online
    && same_status user.status p.status
    && same_bool (truthy user.idle) p.idle
presence_matches _ _ = false

unfoldable pub is_admin : Option User → Bool
is_admin none = false
is_admin (some u) = elim u.role [ none ↦ false | some r ↦ elim r [ Role.admin ↦ true | _ ↦ false ] ]

unfoldable pub can_moderate : Option User → Bool
can_moderate none = false
can_moderate (some u) = elim u.role [
  | none ↦ false
  | some r ↦ elim r [ Role.member ↦ false | _ ↦ true ]
]

unfoldable pub set_presence : State → ℕ → Bool → Status → Bool → State
set_presence s uid is_online status is_idle = elim (IdMap.get uid s.users) [
  | none ↦ s
  | some prev ↦ record s {
    users =
        IdMap.put uid
          (record prev { online = some is_online; status = some status; idle = some is_idle })
          s.users;
  }
]
