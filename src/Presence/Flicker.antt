-- ===== src/Presence/Flicker.antt =====
-- An update that the debounce drops would have changed nothing that is shown.
use rivendell.Base.{ℕ, ◌≡◌, inl, inr, Bool, true, Option, none, some, arith, is_some, Option-cases}
use rivendell.IdMap
use rivendell.IdMap.Laws.{get-put}
use rivendell.Model.{User, State}
use rivendell.State.Users.{Presence, presence_matches, set_presence}
use rivendell.Presence.{
  Decision, drop, presence_class, presence_label, presence_decision, DotClass, Label,
}

-- The decision on an update, with the facts that web/static/app.js hands over.
abbrev pub decide : State → Bool → Presence → Decision
decide s is_self p =
    let user = IdMap.get p.user_id s.users in
    presence_decision is_self (is_some user) (presence_matches user (some p))

-- What the roster shows of a user.
abbrev pub shown : State → ℕ → Option (DotClass × Label)
shown s uid = elim (IdMap.get uid s.users) [
  | none ↦ none
  | some u ↦ some (presence_class u, presence_label u)
]

abbrev at_presence : User → Presence → User
at_presence u p = record u { online = some p.online; status = some p.status; idle = some p.idle }

class_of_matches :
    (u : User) (p : Presence)
    → presence_matches (some u) (some p) ≡ true
    → (presence_class (at_presence u p) ≡ presence_class u)
      × (presence_label (at_presence u p) ≡ presence_label u)
unfolding presence_matches presence_class presence_label
class_of_matches u p h = ground arith

matches_of_drop :
    (found : Option User) (is_self : Bool) (p : Presence) {u : User}
    → found ≡ some u
    → presence_decision is_self (is_some found) (presence_matches found (some p)) ≡ drop
    → presence_matches (some u) (some p) ≡ true
unfolding presence_decision
matches_of_drop none is_self p e h = cc
matches_of_drop (some w) is_self p e h = ground arith

-- An update that is dropped would leave the color and the word of every user's dot as they are.
pub drop_keeps_shown :
    (s : State) (is_self : Bool) (p : Presence) (uid : ℕ)
    → decide s is_self p ≡ drop
    → shown (set_presence s p.user_id p.online p.status p.idle) uid ≡ shown s uid
unfolding set_presence presence_decision
drop_keeps_shown s is_self p uid h = elim (Option-cases (IdMap.get p.user_id s.users)) [
  | inl e ↦ rw (e, set_presence)
  | inr f ↦
      rw (f.1, set_presence)
        (ground (
          arith,
          get-put p.user_id uid (at_presence f.0 p) s.users,
          class_of_matches f.0 p,
          matches_of_drop (IdMap.get p.user_id s.users) is_self p f.1 h,
        ))
]
