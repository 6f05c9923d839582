-- ===== src/State/Messages/Paging.antt =====
-- Pages of history, spliced in below or above what is loaded.
use rivendell.Base.{
  ℕ, ◌≡◌, sym, ap, ◌∙◌, inl, inr, Bool, true, false, none, List, [], ◌∷◌, ◌++◌, arith,
  if◌then◌else◌, ==_refl, Bool-cases, or_else, filter, All,
}
use rivendell.IdMap.Laws.{get-put}
use rivendell.Model.{Message, State}
use rivendell.State.Messages.{
  by_id, loaded, unseen, window, put_window, prepend_messages, append_messages,
}
use rivendell.State.Messages.Window.{
  find_id, IsWindow, IsDistinct, Differs, by_id-IsWindow, find-by_id, IsWindow-ext, find-append,
  loaded-find, IsWindow-IsDistinct,
}

find-unseen :
    (j : ℕ) (seen ms : List Message)
    → find_id j (unseen seen ms) ≡ (if loaded seen j then none else find_id j ms)
find-unseen j seen [] = ground arith
find-unseen j seen (m ∷ ms) = ground (arith, find-unseen j seen ms)

filter-Differs :
    (p : Message → Bool) (m : Message) (ms : List Message) → Differs m ms → Differs m (filter p ms)
filter-Differs p m [] d = tt
filter-Differs p m (n ∷ ms) d = elim (Bool-cases (p n)) [
  | inl e ↦ rw e (d.0, filter-Differs p m ms d.1)
  | inr e ↦ rw e (filter-Differs p m ms d.1)
]

filter-IsDistinct :
    (p : Message → Bool) (ms : List Message) → IsDistinct ms → IsDistinct (filter p ms)
filter-IsDistinct p [] d = tt
filter-IsDistinct p (m ∷ ms) d = elim (Bool-cases (p m)) [
  | inl e ↦ rw e (filter-Differs p m ms d.0, filter-IsDistinct p ms d.1)
  | inr e ↦ rw e (filter-IsDistinct p ms d.1)
]

append-Differs :
    (m : Message) (xs ys : List Message) → Differs m xs → Differs m ys → Differs m (xs ++ ys)
append-Differs m [] ys dx dy = dy
append-Differs m (x ∷ xs) ys dx dy = (dx.0, append-Differs m xs ys dx.1 dy)

unseen-Differs :
    (m : Message) (seen ms : List Message) → loaded seen m.id ≡ true → Differs m (unseen seen ms)
unseen-Differs m seen [] l = tt
unseen-Differs m seen (n ∷ ms) l = elim (Bool-cases (loaded seen n.id)) [
  | inl e ↦ rw e (unseen-Differs m seen ms l)
  | inr e ↦ rw e ((λ same. cc (ap (loaded seen) same)), unseen-Differs m seen ms l)
]

abbrev Apart : List Message → List Message → Type 0
Apart xs ys = All (λ m. Differs m ys) xs

append-IsDistinct :
    (xs ys : List Message) → IsDistinct xs → IsDistinct ys → Apart xs ys → IsDistinct (xs ++ ys)
append-IsDistinct [] ys dx dy a = dy
append-IsDistinct (x ∷ xs) ys dx dy a =
    (append-Differs x xs ys dx.0 a.0, append-IsDistinct xs ys dx.1 dy a.1)

loaded-Differs : (m : Message) (ms : List Message) → loaded ms m.id ≡ false → Differs m ms
loaded-Differs m [] l = tt
loaded-Differs m (n ∷ ms) l = (ground arith, loaded-Differs m ms (ground arith))

unseen-Apart : (seen ms : List Message) → Apart (unseen seen ms) seen
unseen-Apart seen [] = tt
unseen-Apart seen (m ∷ ms) = elim (Bool-cases (loaded seen m.id)) [
  | inl e ↦ rw e (unseen-Apart seen ms)
  | inr e ↦ rw e (loaded-Differs m seen e, unseen-Apart seen ms)
]

swap-Apart :
    (xs : List Message) (m : Message) (ys : List Message) → Apart xs (m ∷ ys) → Differs m xs
swap-Apart [] m ys a = tt
swap-Apart (x ∷ xs) m ys a = ((λ e. a.0.0 (sym e)), swap-Apart xs m ys a.1)

tail-Apart : (xs : List Message) (m : Message) (ys : List Message) → Apart xs (m ∷ ys) → Apart xs ys
tail-Apart [] m ys a = tt
tail-Apart (x ∷ xs) m ys a = (a.0.1, tail-Apart xs m ys a.1)

Apart-sym : (xs ys : List Message) → Apart xs ys → Apart ys xs
Apart-sym xs [] a = tt
Apart-sym xs (y ∷ ys) a = (swap-Apart xs y ys a, Apart-sym xs ys (tail-Apart xs y ys a))

-- The merged page, in either order of its halves.
below-IsWindow :
    (existing older : List Message)
    → IsWindow existing
    → IsDistinct older
    → IsWindow (by_id (unseen existing older ++ existing))
below-IsWindow existing older h d = by_id-IsWindow _ (
    append-IsDistinct (unseen existing older) existing (filter-IsDistinct _ older d)
      (IsWindow-IsDistinct existing h) (unseen-Apart existing older))

above-IsWindow :
    (existing newer : List Message)
    → IsWindow existing
    → IsDistinct newer
    → IsWindow (by_id (existing ++ unseen existing newer))
above-IsWindow existing newer h d = by_id-IsWindow _ (
    append-IsDistinct existing (unseen existing newer) (IsWindow-IsDistinct existing h)
      (filter-IsDistinct _ newer d) (Apart-sym _ existing (unseen-Apart existing newer)))

find-below :
    (j : ℕ) (existing older : List Message)
    → find_id j (by_id (unseen existing older ++ existing))
      ≡ or_else (find_id j existing) (find_id j older)
find-below j existing older =
    find-by_id j (unseen existing older ++ existing)
    ∙ find-append j (unseen existing older) existing
    ∙ ground (arith, find-unseen j existing older, loaded-find j existing)

find-above :
    (j : ℕ) (existing newer : List Message)
    → find_id j (by_id (existing ++ unseen existing newer))
      ≡ or_else (find_id j existing) (find_id j newer)
find-above j existing newer =
    find-by_id j (existing ++ unseen existing newer)
    ∙ find-append j existing (unseen existing newer)
    ∙ ground (arith, find-unseen j existing newer, loaded-find j existing)

module _ (s : State) (cid : ℕ) (page : List Message) where
  -- A page joined to a window leaves a window, which holds what was loaded and, where nothing
  -- was, what the page has.
  pub prepend_messages_lem :
      IsWindow (window s cid)
      → IsDistinct page
      → IsWindow (window (prepend_messages s cid page) cid)
        × ((j : ℕ)
            → find_id j (window (prepend_messages s cid page) cid)
              ≡ or_else (find_id j (window s cid)) (find_id j page))
  unfolding prepend_messages
  prepend_messages_lem h d = (
    rw (get-put, ==_refl) (below-IsWindow (window s cid) page h d),
    λ j. rw (get-put, ==_refl) (find-below j (window s cid) page),
  )

  -- Forward paging merges a page exactly as backward paging does.
  pub append_messages-eq-prepend_messages :
      IsWindow (window s cid)
      → IsDistinct page
      → append_messages s cid page ≡ prepend_messages s cid page
  unfolding append_messages prepend_messages
  append_messages-eq-prepend_messages h d = ap (put_window s cid) (
      IsWindow-ext _ _ (above-IsWindow (window s cid) page h d)
        (below-IsWindow (window s cid) page h d)
        (λ j. find-above j (window s cid) page ∙ sym (find-below j (window s cid) page)))
