-- ===== src/ChannelOrder.antt =====
-- web/static/channelorder.js: the orders of the sidebar and the positions that a drop changes.
pub mod Patches
use rivendell.Base.{
  ℕ, zero, suc, ◌+◌, ◌-◌, ◌*◌, ◌/◌, ◌%◌, ◌^◌, ◌≤◌, ◌<◌, min, max, String, ◌≡◌, refl, sym, ap, ap₂,
  subst, subst₂, ◌∙◌, ◌≢◌, ◌↔◌, ◌⊎◌, inl, inr, Bool, true, false, not, ◌&&◌, ◌||◌, Option, none,
  some, List, [], ◌∷◌, ◌++◌, map, arith, ltb, leb, ◌==◌, if◌then◌else◌, ltb→lt, leb→le, ==_iff,
  ==_refl, Bool-cases, get_or, or_else, is_some, Option-cases, same_id, same_id_refl, matches_id,
  length, get_elem?, filter, any, find, All, length-append, contains, append_nil, append_assoc,
}
use rivendell.IdMap
use rivendell.IdMap.{IdMap}
use rivendell.Model.{Channel, State}

-- A channel that is missing from the map makes the code throw.
unfoldable pub picked_order : (Channel → Bool) → IdMap Channel → List ℕ → Option (List ℕ)
unfolding IdMap.get
picked_order f channels [] = some []
picked_order f channels (id ∷ ids) =
    let rest = picked_order f channels ids in
    elim (IdMap.get id channels) [
      | none ↦ none
      | some c ↦ elim rest [ none ↦ none | some ids ↦ some (if f c then id ∷ ids else ids) ]
    ]

unfoldable pub regular_channel_order : State → Option (List ℕ)
unfolding picked_order
regular_channel_order s = picked_order (λ c. not c.is_dm) s.channels s.channel_order

abbrev pub joined : Option (List ℕ) → Option (List ℕ) → Option (List ℕ)
joined (some a) (some b) = some (a ++ b)
joined a b = none

unfoldable pub sidebar_channel_order : State → Option (List ℕ)
unfolding regular_channel_order picked_order
sidebar_channel_order s =
    joined (regular_channel_order s)
      (picked_order (λ (c : Channel). c.is_dm) s.channels s.channel_order)

-- Channels whose position changes, with the new one.
abbrev pub add_patch : ℕ → ℕ → Channel → List (ℕ × ℕ) → List (ℕ × ℕ)
add_patch id n c ps = if c.position == n then ps else (id, n) ∷ ps

unfoldable pub patches_from : ℕ → List ℕ → IdMap Channel → Option (List (ℕ × ℕ))
unfolding IdMap.get
patches_from n [] channels = some []
patches_from n (id ∷ ids) channels =
    let rest = patches_from (suc n) ids channels in
    elim (IdMap.get id channels) [
      | none ↦ none
      | some c ↦ elim rest [ none ↦ none | some ps ↦ some (add_patch id n c ps) ]
    ]

-- `ids.indexOf(id)`, from `n` on.
abbrev pub position_from : ℕ → List ℕ → ℕ → Option ℕ
position_from n [] id = none
position_from n (i ∷ ids) id = if i == id then some n else position_from (suc n) ids id

abbrev pub at_position : Option ℕ → Channel → Channel
at_position none c = c
at_position (some n) c = record c { position = n }

unfoldable pub channel_reorder_patches :
    List ℕ → IdMap Channel → Option (List (ℕ × ℕ) × List Channel)
unfolding patches_from
channel_reorder_patches ids channels = elim (patches_from 0 ids channels) [
  | none ↦ none
  | some ps ↦
      some (
        ps,
        map (λ (c : Channel). at_position (position_from 0 ids c.id) c) (IdMap.values channels),
      )
]
