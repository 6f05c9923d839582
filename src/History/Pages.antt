-- ===== src/History/Pages.antt =====
-- What a turn of the paging machine does to what is loaded.
use rivendell.Base.{
  ℕ, ◌≡◌, refl, sym, subst, subst₂, inl, inr, Bool, true, false, not, ◌&&◌, none, some, List, [],
  ◌∷◌, arith, ◌==◌, if◌then◌else◌, ==_iff, Bool-cases, or_else, same_id, length,
}
use rivendell.Model.{Message, State}
use rivendell.IdMap.Laws.{get-put}
use rivendell.State.Messages.{window, prepend_messages, append_messages}
use rivendell.State.Messages.Window.{IsWindow, IsDistinct, find_id}
use rivendell.State.Messages.Paging.{prepend_messages_lem, append_messages-eq-prepend_messages}
use rivendell.History.{
  Pane, Input, older_starts, newer_starts, older_ends, newer_ends, resets, clears, marks, notes,
  turn, start_older, start_newer, end_older, end_newer,
}
use rivendell.Base.{
  subst, subst₂, sym, ◌&&◌, not, Bool-cases, inl, inr, ==_iff, length, arith, some, none, ◌==◌,
}

-- The page that a turn merges into a channel's window.
abbrev pub merged : Pane → Input → ℕ → List Message
merged p (older_ends cid (some ms)) c = if cid == c then ms else []
merged p (newer_ends cid (some ms)) c =
    if (cid == c) && same_id (some cid) p.state.active_channel_id then ms else []
merged p _ c = []

-- The answers have distinct ids.
abbrev pub IsAnswer : Input → Type 0
IsAnswer (older_ends cid (some ms)) = IsDistinct ms
IsAnswer (newer_ends cid (some ms)) = IsDistinct ms
IsAnswer _ = Unit

abbrev pub Holds : State → State → List Message → ℕ → Type 0
Holds s t ms c =
    IsWindow (window t c)
    × ((j : ℕ) → find_id j (window t c) ≡ or_else (find_id j (window s c)) (find_id j ms))

-- Nothing is merged.
same-Holds : (s : State) (c : ℕ) → IsWindow (window s c) → Holds s s [] c
same-Holds s c h = (h, λ j. ground arith)

start_older_state : (p : Pane) → (start_older p).0.state ≡ p.state
unfolding start_older
start_older_state p = ground arith

start_newer_state : (p : Pane) → (start_newer p).0.state ≡ p.state
unfolding start_newer
start_newer_state p = ground arith

window_other :
    (s : State) (cid c : ℕ) (ms : List Message)
    → (cid == c) ≡ false
    → window (prepend_messages s cid ms) c ≡ window s c
unfolding prepend_messages
window_other s cid c ms e = rw (get-put, e) refl

prepend-Holds :
    (s : State) (cid c : ℕ) (ms : List Message)
    → ((d : ℕ) → IsWindow (window s d))
    → IsDistinct ms
    → Holds s (prepend_messages s cid ms) (if cid == c then ms else []) c
prepend-Holds s cid c ms h d = elim (Bool-cases (cid == c)) [
  | inl e ↦
      subst (λ b. Holds s (prepend_messages s cid ms) (if b then ms else []) c) (sym e)
        (subst (Holds s (prepend_messages s cid ms) ms) ((==_iff cid c).0 e)
          (prepend_messages_lem s cid ms (h cid) d))
  | inr e ↦
      subst (λ b. Holds s (prepend_messages s cid ms) (if b then ms else []) c) (sym e)
        (subst
          (λ w.
            IsWindow w × ((j : ℕ) → find_id j w ≡ or_else (find_id j (window s c)) (find_id j [])))
          (sym (window_other s cid c ms e)) (same-Holds s c (h c)))
]

same_or :
    (s : State) (c : ℕ) (ms : List Message) (b : Bool)
    → ((d : ℕ) → IsWindow (window s d))
    → length ms ≡ 0
    → Holds s s (if b then ms else []) c
same_or s c [] true h e = same-Holds s c (h c)
same_or s c (m ∷ ms) true h e = absurd (omega (arith, e))
same_or s c ms false h e = same-Holds s c (h c)

and_false : (b : Bool) → (b && false) ≡ false
and_false true = refl
and_false false = refl

and_true : (b : Bool) → (b && true) ≡ b
and_true true = refl
and_true false = refl

newer-Holds :
    (s : State) (cid c : ℕ) (ms : List Message) (empty active : Bool)
    → ((d : ℕ) → IsWindow (window s d))
    → IsDistinct ms
    → (empty ≡ true → length ms ≡ 0)
    → Holds s
        (if not empty && active then append_messages s cid ms else s)
        (if (cid == c) && active then ms else [])
        c
newer-Holds s cid c ms true active h d e = same_or s c ms ((cid == c) && active) h (e refl)
newer-Holds s cid c ms false false h d e =
    subst (λ b. Holds s s (if b then ms else []) c) (sym (and_false (cid == c)))
      (same-Holds s c (h c))
newer-Holds s cid c ms false true h d e =
    subst₂ (λ t b. Holds s t (if b then ms else []) c)
      (sym (append_messages-eq-prepend_messages s cid ms (h cid) d)) (sym (and_true (cid == c)))
      (prepend-Holds s cid c ms h d)

-- After any turn every window ascends by id without repetition, and reading any id from any
-- channel gives the message that was loaded or, where none was, the one that the merged page has:
-- an older page, whichever channel is active when it comes, and a newer one while its channel is
-- the active one.
pub turn-Holds :
    (p : Pane) (e : Input) (c : ℕ)
    → ((d : ℕ) → IsWindow (window p.state d))
    → IsAnswer e
    → Holds p.state (turn p e).state (merged p e c) c
unfolding turn end_older end_newer
turn-Holds p older_starts c h a =
    subst (λ t. Holds p.state t [] c) (sym (start_older_state p)) (same-Holds p.state c (h c))
turn-Holds p newer_starts c h a =
    subst (λ t. Holds p.state t [] c) (sym (start_newer_state p)) (same-Holds p.state c (h c))
turn-Holds p (older_ends cid none) c h a = same-Holds p.state c (h c)
turn-Holds p (older_ends cid (some ms)) c h a = elim (Bool-cases (length ms == 0)) [
  | inl e ↦
      subst
        (λ b.
          Holds p.state (if b then p.state else prepend_messages p.state cid ms)
            (if cid == c then ms else []) c)
        (sym e) (same_or p.state c ms (cid == c) h ((==_iff (length ms) 0).0 e))
  | inr e ↦
      subst
        (λ b.
          Holds p.state (if b then p.state else prepend_messages p.state cid ms)
            (if cid == c then ms else []) c)
        (sym e) (prepend-Holds p.state cid c ms h a)
]
turn-Holds p (newer_ends cid none) c h a = same-Holds p.state c (h c)
turn-Holds p (newer_ends cid (some ms)) c h a =
    newer-Holds p.state cid c ms (length ms == 0) (same_id (some cid) p.state.active_channel_id) h a
      (λ e. (==_iff (length ms) 0).0 e)
turn-Holds p (resets i) c h a = same-Holds p.state c (h c)
turn-Holds p (clears i) c h a = same-Holds p.state c (h c)
turn-Holds p (marks i) c h a = same-Holds p.state c (h c)
turn-Holds p (notes i n) c h a = same-Holds p.state c (h c)
