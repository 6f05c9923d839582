-- ===== src/State/Channels/Ordering.antt =====
-- The order of the sidebar: a permutation of the channels in which none stands before its turn.
use mathlib.Core.List.{Perm}
use rivendell.Base.{◌≤◌, ◌<◌, ◌≡◌, refl, ◌⊎◌, true, false, List, [], ◌∷◌, map, arith, All}
use rivendell.IdMap
use rivendell.IdMap.{IdMap}
use rivendell.Model.{Channel}
use rivendell.Sort.{sort}
use rivendell.Sort.Laws.{sort-perm, sort-IsSorted, IsSorted}
use rivendell.State.Channels.{Collation, recency, channel_le, channel_id, sort_channels}

-- Regular channels come first, by position and then by name; DMs follow, the latest first.
abbrev pub Before : Collation → Channel → Channel → Type 0
Before col a b =
    ((a.is_dm ≡ false) × (b.is_dm ≡ true))
    ⊎ ((a.is_dm ≡ false) × (b.is_dm ≡ false) × (a.position < b.position))
    ⊎ ((a.is_dm ≡ false)
        × (b.is_dm ≡ false)
        × (a.position ≡ b.position)
        × (col.name_le a.name b.name ≡ true))
    ⊎ ((a.is_dm ≡ true) × (b.is_dm ≡ true) × (recency b ≤ recency a))

module _ (col : Collation) where
  channel_le_total : (a b : Channel) → channel_le col a b ≡ false → channel_le col b a ≡ true
  unfolding channel_le
  channel_le_total a b h = ground (arith, col.total a.name b.name)

  channel_le_trans :
      (a b c : Channel)
      → channel_le col a b ≡ true
      → channel_le col b c ≡ true
      → channel_le col a c ≡ true
  unfolding channel_le
  channel_le_trans a b c h k = ground (arith, col.trans a.name b.name c.name)

  Before-of_le : (a b : Channel) → channel_le col a b ≡ true → Before col a b
  unfolding channel_le
  Before-of_le a b h = ground arith

  abbrev pub InOrder : List Channel → Type 0
  InOrder [] = Unit
  InOrder (c ∷ cs) = All (Before col c) cs × InOrder cs

  All-Before :
      (c : Channel) (cs : List Channel)
      → All (λ d. channel_le col c d ≡ true) cs
      → All (Before col c) cs
  All-Before c [] h = tt
  All-Before c (d ∷ ds) h = (Before-of_le c d h.0, All-Before c ds h.1)

  InOrder-of_IsSorted : (cs : List Channel) → IsSorted (channel_le col) cs → InOrder cs
  InOrder-of_IsSorted [] h = tt
  InOrder-of_IsSorted (c ∷ cs) h = (All-Before c cs h.0, InOrder-of_IsSorted cs h.1)

  -- The ids are those of all the channels, each as often as it stands there, put in order:
  -- regular ones by position and name, then the DMs by their latest message.
  pub sort_channels-InOrder :
      (m : IdMap Channel)
      → (cs : List Channel) × (sort_channels col m ≡ map channel_id cs)
        × Perm cs (IdMap.values m)
        × InOrder cs
  unfolding sort_channels
  sort_channels-InOrder m = (
    sort (channel_le col) (IdMap.values m),
    refl,
    sort-perm (channel_le col) (IdMap.values m),
    InOrder-of_IsSorted _
        (sort-IsSorted (channel_le col) channel_le_total channel_le_trans (IdMap.values m)),
  )
