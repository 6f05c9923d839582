-- ===== src/State/Messages/Adding.antt =====
-- `addMessage`: one message joins a window, or replaces the one with its id.
use rivendell.Base.{
  ℕ, ◌<◌, ◌≡◌, sym, ap, ◌∙◌, ◌≢◌, inl, inr, true, false, none, some, List, [], ◌∷◌, ◌++◌, arith,
  ◌==◌, if◌then◌else◌, ==_refl, Bool-cases, All,
}
use rivendell.IdMap.Laws.{get-put, put-put}
use rivendell.Model.{Message, State}
use rivendell.State.Messages.{
  by_id, has_id, loaded, window, put_window, merge, replace, add_to, add_message,
}
use rivendell.State.Messages.Window.{
  find_id, IsWindow, IsDistinct, Differs, by_id-IsWindow, find-by_id, IsWindow-ext, find-append,
  loaded-find, IsWindow-IsDistinct,
}

-- The message that the window holds once `msg` is added: `msg` with what it lacks.
abbrev pub added : List Message → Message → Message
added existing msg = elim (find_id msg.id existing) [ none ↦ msg | some prev ↦ merge prev msg ]

find-replace :
    (msg : Message) (j : ℕ) (ms : List Message)
    → loaded ms msg.id ≡ true
    → find_id j (replace msg ms) ≡ (if msg.id == j then some (added ms msg) else find_id j ms)
unfolding replace
find-replace msg j [] h = cc
find-replace msg j (m ∷ ms) h = ground (arith, find-replace msg j ms)

replace-All :
    (k : ℕ) (msg : Message) (ms : List Message)
    → All (λ n. k < n.id) ms
    → All (λ n. k < n.id) (replace msg ms)
unfolding replace
replace-All k msg [] h = tt
replace-All k msg (m ∷ ms) h = elim (Bool-cases (has_id msg.id m)) [
  | inl e ↦ rw e (ground arith, h.1)
  | inr e ↦ rw e (h.0, replace-All k msg ms h.1)
]

replace-IsWindow : (msg : Message) (ms : List Message) → IsWindow ms → IsWindow (replace msg ms)
unfolding replace
replace-IsWindow msg [] h = tt
replace-IsWindow msg (m ∷ ms) h = elim (Bool-cases (has_id msg.id m)) [
  | inl e ↦ rw e (let same : m.id ≡ msg.id = ground arith in (rw same at h.0, h.1))
  | inr e ↦ rw e (replace-All m.id msg ms h.0, replace-IsWindow msg ms h.1)
]

snoc-Differs :
    (m msg : Message) (ms : List Message)
    → m.id ≢ msg.id
    → Differs m ms
    → Differs m (ms ++ msg ∷ [])
snoc-Differs m msg [] n d = (n, tt)
snoc-Differs m msg (x ∷ ms) n d = (d.0, snoc-Differs m msg ms n d.1)

snoc-IsDistinct :
    (ms : List Message) (msg : Message)
    → loaded ms msg.id ≡ false
    → IsDistinct ms
    → IsDistinct (ms ++ msg ∷ [])
snoc-IsDistinct [] msg l d = (tt, tt)
snoc-IsDistinct (m ∷ ms) msg l d =
    (snoc-Differs m msg ms (ground arith) d.0, snoc-IsDistinct ms msg (ground arith) d.1)

pub add_to-IsWindow : (ms : List Message) (msg : Message) → IsWindow ms → IsWindow (add_to ms msg)
unfolding add_to
add_to-IsWindow ms msg h = elim (Bool-cases (loaded ms msg.id)) [
  | inl e ↦ rw e (replace-IsWindow msg ms h)
  | inr e ↦ rw e (by_id-IsWindow _ (snoc-IsDistinct ms msg e (IsWindow-IsDistinct ms h)))
]

find-snoc :
    (j : ℕ) (ms : List Message) (msg : Message)
    → loaded ms msg.id ≡ false
    → find_id j (by_id (ms ++ msg ∷ []))
      ≡ (if msg.id == j then some (added ms msg) else find_id j ms)
find-snoc j ms msg l =
    find-by_id j (ms ++ msg ∷ [])
    ∙ find-append j ms (msg ∷ [])
    ∙ ground (arith, loaded-find msg.id ms)

pub find-add_to :
    (j : ℕ) (ms : List Message) (msg : Message)
    → find_id j (add_to ms msg) ≡ (if msg.id == j then some (added ms msg) else find_id j ms)
unfolding add_to
find-add_to j ms msg = elim (Bool-cases (loaded ms msg.id)) [
  | inl e ↦ rw e (find-replace msg j ms e)
  | inr e ↦ rw e (find-snoc j ms msg e)
]

added-merge :
    (ms : List Message) (msg : Message) (prev : Message)
    → merge (merge prev msg) msg ≡ merge prev msg
added-merge ms msg prev = ground arith

merge_self : (msg : Message) → merge msg msg ≡ msg
merge_self msg = ground arith

window-put_window_if :
    (s : State) (c d : ℕ) (ms : List Message)
    → window (put_window s c ms) d ≡ (if c == d then ms else window s d)
window-put_window_if s c d ms = ground (arith, get-put c d ms s.messages)

-- What one message leaves to be read from every channel and under every id.
pub find-add_message :
    (s : State) (msg : Message) (cid j : ℕ)
    → find_id j (window (add_message s msg) cid) ≡ (
        if msg.channel_id == cid
        then if msg.id == j then some (added (window s cid) msg) else find_id j (window s cid)
        else find_id j (window s cid))
unfolding add_message
find-add_message s msg cid j = ground (
  arith,
  window-put_window_if s msg.channel_id cid (add_to (window s msg.channel_id) msg),
  find-add_to j (window s cid) msg,
)

window-put_window :
    (s : State) (cid : ℕ) (ms : List Message) → window (put_window s cid ms) cid ≡ ms
window-put_window s cid ms = rw (get-put, ==_refl)

add_to_twice :
    (ms : List Message) (msg : Message) → IsWindow ms → add_to (add_to ms msg) msg ≡ add_to ms msg
add_to_twice ms msg h =
    IsWindow-ext _ _ (add_to-IsWindow _ msg (add_to-IsWindow ms msg h)) (add_to-IsWindow ms msg h)
      (λ j.
        ground (
          arith,
          find-add_to j (add_to ms msg) msg,
          find-add_to j ms msg,
          find-add_to msg.id ms msg,
        ))

add_to_comm :
    (ms : List Message) (a b : Message)
    → a.id ≢ b.id
    → IsWindow ms
    → add_to (add_to ms a) b ≡ add_to (add_to ms b) a
add_to_comm ms a b d h =
    IsWindow-ext _ _ (add_to-IsWindow _ b (add_to-IsWindow ms a h))
      (add_to-IsWindow _ a (add_to-IsWindow ms b h))
      (λ j. ground (
        arith,
        find-add_to j (add_to ms a) b,
        find-add_to j ms a,
        find-add_to b.id ms a,
        find-add_to j (add_to ms b) a,
        find-add_to j ms b,
        find-add_to a.id ms b,
      ))

-- Delivered twice, a message changes nothing the second time.
pub add_message_twice :
    (s : State) (msg : Message)
    → IsWindow (window s msg.channel_id)
    → add_message (add_message s msg) msg ≡ add_message s msg
unfolding add_message
add_message_twice s msg h =
    rw (window-put_window, put-put)
      (ap (put_window s msg.channel_id) (add_to_twice (window s msg.channel_id) msg h))

-- Two messages of a channel may arrive in either order.
pub add_message_comm :
    (s : State) (a b : Message)
    → a.channel_id ≡ b.channel_id
    → a.id ≢ b.id
    → IsWindow (window s a.channel_id)
    → add_message (add_message s a) b ≡ add_message (add_message s b) a
unfolding add_message
add_message_comm s a b c d h =
    simp (sym c, window-put_window s a.channel_id, put-put)
      (ap (put_window s a.channel_id) (add_to_comm (window s a.channel_id) a b d h))
