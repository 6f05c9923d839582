-- ===== src/State/Messages/Editing.antt =====
-- Deleting and reacting: one message of a window changes in place.
use rivendell.Base.{
  ℕ, ◌<◌, ◌≡◌, sym, subst, Option, none, some, List, [], ◌∷◌, map, arith, ◌==◌, if◌then◌else◌, All,
}
use rivendell.Model.{Reaction, Message}
use rivendell.State.Messages.{has_id, tombstone, mark_in, react_in}
use rivendell.State.Messages.Window.{find_id, IsWindow}

module _ (f : Message → Message) (same : (m : Message) → (f m).id ≡ m.id) where
  map-All : (k : ℕ) (ms : List Message) → All (λ n. k < n.id) ms → All (λ n. k < n.id) (map f ms)
  map-All k [] h = tt
  map-All k (m ∷ ms) h = (omega (arith, same m), map-All k ms h.1)

  pub map-IsWindow : (ms : List Message) → IsWindow ms → IsWindow (map f ms)
  map-IsWindow [] h = tt
  map-IsWindow (m ∷ ms) h = (
    subst (λ k. All (λ n. k < n.id) (map f ms)) (sym (same m)) (map-All m.id ms h.0),
    map-IsWindow ms h.1,
  )

mark_id : (now id : ℕ) (m : Message) → (if has_id id m then tombstone now m else m).id ≡ m.id
mark_id now id m = ground arith

pub mark_in-IsWindow : (now id : ℕ) (ms : List Message) → IsWindow ms → IsWindow (mark_in now id ms)
unfolding mark_in
mark_in-IsWindow now id ms h = map-IsWindow _ (mark_id now id) ms h

react_id :
    (id : ℕ) (rs : List Reaction) (m : Message)
    → (if has_id id m then record m { reactions = some rs } else m).id ≡ m.id
react_id id rs m = ground arith

pub react_in-IsWindow :
    (id : ℕ) (rs : List Reaction) (ms : List Message) → IsWindow ms → IsWindow (react_in id rs ms)
unfolding react_in
react_in-IsWindow id rs ms h = map-IsWindow _ (react_id id rs) ms h

abbrev on_some : (Message → Message) → Option Message → Option Message
on_some f none = none
on_some f (some m) = some (f m)

find-mark_in :
    (j now id : ℕ) (ms : List Message)
    → find_id j (mark_in now id ms)
      ≡ (if id == j then on_some (tombstone now) (find_id j ms) else find_id j ms)
unfolding mark_in
find-mark_in j now id [] = ground arith
find-mark_in j now id (m ∷ ms) = ground (arith, find-mark_in j now id ms)
