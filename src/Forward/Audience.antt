-- ===== src/Forward/Audience.antt =====
-- Who can read what is forwarded.
use rivendell.Base.{ℕ, ◌≡◌, ◌⊎◌, Bool, true, false, Option, some}
use rivendell.IdMap
use rivendell.Model.{Channel, User, State}
use rivendell.Forward.{other_dm_participant}

-- The channel of a target, and if it is a DM its other member, who can see the source.
abbrev pub Reaches : (ℕ → ℕ) → State → User → (ℕ → Bool) → ℕ → Type 0
Reaches nearest s me can_see id =
    (c : Channel) × (IdMap.get id s.channels ≡ some c)
    × ((c.is_dm ≡ false)
        ⊎ ((other : ℕ) × (other_dm_participant nearest c me.id ≡ some other)
            × (can_see other ≡ true)))

-- A row that is not left out.
Seen : (ℕ → Bool) → Bool → Option ℕ → Type 0
Seen can_see is_dm o = (is_dm ≡ false) ⊎ ((other : ℕ) × (o ≡ some other) × (can_see other ≡ true))
