-- ===== src/Forward.antt =====
-- web/static/forward.js, dmDisplayName of web/static/channelorder.js, and dmParticipants and
-- otherDMParticipant of web/static/state.js: where a message can be forwarded to, and as what. The
-- user is logged in. A label that is undefined is none, and searching it makes the code throw.
pub mod Audience
use rivendell.Base.{
  ℕ, zero, suc, ◌+◌, ◌-◌, ◌*◌, ◌/◌, ◌%◌, ◌^◌, ◌≤◌, ◌<◌, min, max, String, ◌≡◌, refl, sym, ap, ap₂,
  subst, subst₂, ◌∙◌, ◌≢◌, ◌↔◌, ◌⊎◌, inl, inr, Bool, true, false, not, ◌&&◌, ◌||◌, Option, none,
  some, List, [], ◌∷◌, ◌++◌, map, arith, ltb, leb, ◌==◌, if◌then◌else◌, ltb→lt, leb→le, ==_iff,
  ==_refl, Bool-cases, get_or, or_else, is_some, Option-cases, same_id, same_id_refl, matches_id,
  length, get_elem?, filter, any, find, All, length-append, contains, append_nil, append_assoc,
}
use rivendell.IdMap
use rivendell.IdMap.{IdMap}
use rivendell.Model.{Channel, User, Role, State}
use rivendell.Model.{admin, moderator, member}
use rivendell.Format.Mentions.{codes}
use rivendell.Format.Permalinks.{span, after, number_of, permalink_hash, value}
use rivendell.Regex.{Text}
use rivendell.Html.{starts_with}
use rivendell.Syntax.{split_lines, join_with}

abbrev pub pair_of : Option ℕ → Option ℕ → Text → List ℕ
pair_of (some a) (some b) [] = a ∷ b ∷ []
pair_of a b rest = []

abbrev pub second_id : (ℕ → ℕ) → Text → Option Text → List ℕ
unfolding span number_of
second_id nearest first none = []
second_id nearest first (some s) =
    pair_of (number_of nearest first) (number_of nearest (span s).0) (span s).1

-- `/^dm-(\d+)-(\d+)$/`
abbrev pub first_id : (ℕ → ℕ) → Option Text → List ℕ
unfolding span second_id
first_id nearest none = []
first_id nearest (some s) = second_id nearest (span s).0 (after (codes "-") (span s).1)

unfoldable pub dm_participants : (ℕ → ℕ) → Channel → List ℕ
unfolding first_id second_id
dm_participants nearest c =
    if c.is_dm then first_id nearest (after (codes "dm-") (codes c.name)) else []

abbrev pub other_of : ℕ → List ℕ → Option ℕ
other_of me_id [] = none
other_of me_id (id ∷ ids) = elim (find (λ i. not (i == me_id)) (id ∷ ids)) [
  | some other ↦ some other
  | none ↦ if id == me_id then some me_id else none
]

unfoldable pub other_dm_participant : (ℕ → ℕ) → Channel → ℕ → Option ℕ
unfolding dm_participants
other_dm_participant nearest c me_id = other_of me_id (dm_participants nearest c)

abbrev pub text_of_name : Option String → Option Text
text_of_name none = none
text_of_name (some s) = some (codes s)

-- `a || b`
abbrev pub or_text : Option Text → Option Text → Option Text
or_text none b = b
or_text (some []) b = b
or_text (some (c ∷ cs)) b = some (c ∷ cs)

-- `undefined + " (you)"` is a text too.
abbrev pub with_you : Option Text → Text
with_you none = codes "undefined (you)"
with_you (some t) = t ++ codes " (you)"

abbrev pub own_name : User → Text
own_name me = with_you (or_text (text_of_name me.display_name) (text_of_name me.username))

abbrev pub name_in : IdMap User → Option ℕ → Text → Option Text
unfolding IdMap.get
name_in users none name = some name
name_in users (some other) name = elim (IdMap.get other users) [
  | none ↦ some name
  | some u ↦ text_of_name u.display_name
]

unfoldable pub dm_display_name : (ℕ → ℕ) → IdMap User → User → Channel → Option Text
unfolding other_dm_participant name_in IdMap.get
dm_display_name nearest users me c =
    let other = other_dm_participant nearest c me.id in
    if same_id other (some me.id)
    then some (own_name (get_or (IdMap.get me.id users) me))
    else name_in users other (codes c.name)

-- The message is quoted from a DM and linked to from any other channel.
unfoldable pub forward_body : ℕ → Text → Bool → ℕ → Text → Text
unfolding permalink_hash split_lines join_with
forward_body id content from_dm src_channel_id origin =
    if not from_dm
    then origin ++ (codes "/" ++ permalink_hash src_channel_id id)
    else codes "*Forwarded:*"
      ++ (10 ∷ join_with (10 ∷ []) (map (λ l. codes "> " ++ l) (split_lines content)))

abbrev pub is_mod : Option User → Bool
is_mod none = false
is_mod (some u) = elim u.role [
  | none ↦ false
  | some r ↦ elim r [ admin ↦ true | moderator ↦ true | member ↦ false ]
]

unfoldable pub make_can_see : List ℕ → IdMap User → ℕ → Bool
unfolding IdMap.get
make_can_see member_ids users uid = contains member_ids uid || is_mod (IdMap.get uid users)

-- A DM row with nobody who could read the link.
abbrev pub is_hidden : Option (ℕ → Bool) → Bool → Option ℕ → Bool
is_hidden none is_dm other = false
is_hidden (some can_see) false other = false
is_hidden (some can_see) true none = true
is_hidden (some can_see) true (some other) = not (can_see other)

-- `label.toLowerCase().includes(q)`
abbrev pub has_part : Text → Text → Bool
has_part q [] = starts_with q []
has_part q (c ∷ cs) = starts_with q (c ∷ cs) || has_part q cs

abbrev pub row_label : (ℕ → ℕ) → IdMap User → User → Channel → Option Text
unfolding dm_display_name
row_label nearest users me c =
    if c.is_dm then dm_display_name nearest users me c else some (35 ∷ codes c.name)

abbrev pub Target : Type 0
Target = ℕ × Option Text

abbrev pub and_then : Target → Option (List Target) → Option (List Target)
and_then t none = none
and_then t (some ts) = some (t ∷ ts)

-- The row of a channel: shown, left out, or an error.
abbrev pub put_row :
    (Text → Text) → Text → ℕ → Option Text → Option (List Target) → Option (List Target)
put_row lower_case [] id label rest = and_then (id, label) rest
put_row lower_case (c ∷ q) id none rest = none
put_row lower_case (c ∷ q) id (some t) rest =
    if has_part (c ∷ q) (lower_case t) then and_then (id, some t) rest else rest

unfoldable pub targets_in :
    (ℕ → ℕ)
    → (Text → Text)
    → State
    → User
    → Option (ℕ → Bool)
    → Text
    → List ℕ
    → Option (List Target)
unfolding IdMap.get other_dm_participant row_label
targets_in nearest lower_case s me can_see q [] = some []
targets_in nearest lower_case s me can_see q (id ∷ ids) =
    let rest = targets_in nearest lower_case s me can_see q ids in
    elim (IdMap.get id s.channels) [
      | none ↦ rest
      | some c ↦
          if is_hidden can_see c.is_dm (other_dm_participant nearest c me.id)
          then rest
          else put_row lower_case q id (row_label nearest s.users me c) rest
    ]

-- `q` is the trimmed needle in lower case.
unfoldable pub forward_targets :
    (ℕ → ℕ) → (Text → Text) → State → User → Option (ℕ → Bool) → Text → Option (List Target)
unfolding targets_in
forward_targets nearest lower_case s me can_see q =
    targets_in nearest lower_case s me can_see q s.channel_order
