-- ===== src/State/Valid.antt =====
-- The invariant of the state, which every realtime event keeps.
pub mod Parts
pub mod Reached
use rivendell.Base.{
  ℕ, zero, suc, ◌+◌, ◌-◌, ◌*◌, ◌/◌, ◌%◌, ◌^◌, ◌≤◌, ◌<◌, min, max, String, ◌≡◌, refl, sym, ap, ap₂,
  subst, subst₂, ◌∙◌, ◌≢◌, ◌↔◌, ◌⊎◌, inl, inr, Bool, true, false, not, ◌&&◌, ◌||◌, Option, none,
  some, List, [], ◌∷◌, ◌++◌, map, arith, ltb, leb, ◌==◌, if◌then◌else◌, ltb→lt, leb→le, ==_iff,
  ==_refl, Bool-cases, get_or, or_else, is_some, Option-cases, same_id, same_id_refl, matches_id,
  length, get_elem?, filter, any, find, All, length-append, contains, append_nil, append_assoc,
}
use rivendell.IdMap.{IdMap}
use rivendell.IdMap.Entries.{Entries}
use rivendell.IdMap.Order.{Ascending}
use rivendell.Model.{Channel, Message, State}
use rivendell.State.Channels.{Collation, sort_channels}
use rivendell.State.Messages.Window.{IsWindow}

-- Every loaded window ascends by id, without repetition.
abbrev pub WindowsOk : IdMap (List Message) → Type 0
WindowsOk = Entries (λ _ ms. IsWindow ms)

-- The order is that of the channels, each of which stands once, under its own id.
abbrev pub OrderOk : Collation → IdMap Channel → List ℕ → Type 0
OrderOk col channels order =
    (order ≡ sort_channels col channels) × Ascending channels × Entries (λ k c. c.id ≡ k) channels

-- A channel with nothing unseen has no count.
abbrev pub CountsOk : IdMap ℕ → Type 0
CountsOk m = Entries (λ _ n. n ≢ 0) m × Ascending m

-- Somebody types, and nobody stands twice.
abbrev pub IsTyped : IdMap ℕ → Type 0
IsTyped ts = (ts ≢ []) × Ascending ts

-- A channel where nobody types has no entry.
abbrev pub TypingOk : IdMap (IdMap ℕ) → Type 0
TypingOk m = Entries (λ _ ts. IsTyped ts) m × Ascending m

abbrev pub IsValid : Collation → State → Type 0
IsValid col s =
    WindowsOk s.messages
    × OrderOk col s.channels s.channel_order
    × CountsOk s.unread
    × CountsOk s.mentions
    × TypingOk s.typing
