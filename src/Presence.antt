-- ===== src/Presence.antt =====
-- web/static/presence.js: the color and the word of a presence dot, and what to do with an update.
pub mod Flicker
use rivendell.Base.{
  ℕ, zero, suc, ◌+◌, ◌-◌, ◌*◌, ◌/◌, ◌%◌, ◌^◌, ◌≤◌, ◌<◌, min, max, String, ◌≡◌, refl, sym, ap, ap₂,
  subst, subst₂, ◌∙◌, ◌≢◌, ◌↔◌, ◌⊎◌, inl, inr, Bool, true, false, not, ◌&&◌, ◌||◌, Option, none,
  some, List, [], ◌∷◌, ◌++◌, map, arith, ltb, leb, ◌==◌, if◌then◌else◌, ltb→lt, leb→le, ==_iff,
  ==_refl, Bool-cases, get_or, or_else, is_some, Option-cases, same_id, same_id_refl, matches_id,
  length, get_elem?, filter, any, find, All, length-append, contains, append_nil, append_assoc,
}
use rivendell.Model.{Status, User}

pub data DotClass : Type 0 where
  offline away dnd online : DotClass

abbrev pub is_true : Option Bool → Bool
is_true o = get_or o false

abbrev status_class : Option Status → DotClass
status_class (some Status.away) = DotClass.away
status_class (some Status.dnd) = DotClass.dnd
status_class _ = DotClass.online

unfoldable pub presence_class : User → DotClass
presence_class u =
    if not (is_true u.online)
    then DotClass.offline
    else if is_true u.idle
    then DotClass.away
    else status_class u.status

-- The words of the roster; `stored` is the status word itself.
pub data Label : Type 0 where
  offline do_not_disturb idle : Label
  stored : Option Status → Label

abbrev is_dnd : Option Status → Bool
is_dnd (some Status.dnd) = true
is_dnd _ = false

unfoldable pub presence_label : User → Label
presence_label u =
    if not (is_true u.online)
    then Label.offline
    else if is_dnd u.status
    then do_not_disturb
    else if is_true u.idle
    then Label.idle
    else stored u.status

pub data Decision : Type 0 where
  now drop schedule : Decision

unfoldable pub presence_decision : Bool → Bool → Bool → Decision
presence_decision is_self known_user already_matches =
    if is_self
    then now
    else if not known_user
    then drop
    else if already_matches
    then drop
    else schedule
