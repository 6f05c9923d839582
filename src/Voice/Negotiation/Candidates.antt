-- ===== src/Voice/Negotiation/Candidates.antt =====
-- Candidates that arrive before the description of their peer.
use rivendell.Base.{
  ℕ, ◌≡◌, refl, sym, ap, ◌∙◌, true, false, none, some, List, [], ◌∷◌, ◌++◌, ==_refl, get_or,
  append_nil, append_assoc,
}
use rivendell.JsMap
use rivendell.JsMap.{JsMap, get-set, get-delete}
use rivendell.Voice.Call.{Pc, Call, Signaling, Action}
use rivendell.Voice.Negotiation.{on_answer, on_ice, drain_pending_candidates, added}
use rivendell.Base.{append_nil, append_assoc}

-- The candidates of a user arrive in this order.
unfoldable pub all_ice : ℕ → List ℕ → Call → Call × List Action
unfolding on_ice
all_ice from [] c = (c, [])
all_ice from (x ∷ xs) c =
    let first = on_ice from (some x) c in
    let rest = all_ice from xs first.0 in (rest.0, first.1 ++ rest.1)

abbrev pub queue : ℕ → Call → List ℕ
queue from c = get_or (JsMap.get from c.candidates) []

queued : ℕ → ℕ → Call → Call
queued from x c = record c { candidates = JsMap.set from (queue from c ++ (x ∷ [])) c.candidates }

ice_queued :
    (from x : ℕ) (c : Call) (pc : Pc)
    → JsMap.get from c.peer_conns ≡ some pc
    → pc.described ≡ false
    → on_ice from (some x) c ≡ (queued from x c, [])
unfolding on_ice queued
ice_queued from x c pc g d = rw (on_ice, g, d)

queue-queued : (from x : ℕ) (c : Call) → queue from (queued from x c) ≡ queue from c ++ (x ∷ [])
unfolding queued
queue-queued from x c =
    let longer = queue from c ++ (x ∷ []) in
    let h : JsMap.get from (JsMap.set from longer c.candidates) ≡ some longer =
      get-set from from longer c.candidates ∙ rw (==_refl from) in
    ap (λ o. get_or o []) h

-- Nothing is added while they wait, the queue grows by them, and the connections stay.
all_ice_waits :
    (from : ℕ) (xs : List ℕ) (c : Call) (pc : Pc)
    → JsMap.get from c.peer_conns ≡ some pc
    → pc.described ≡ false
    → ((all_ice from xs c).1 ≡ [])
      × (queue from (all_ice from xs c).0 ≡ queue from c ++ xs)
      × ((all_ice from xs c).0.peer_conns ≡ c.peer_conns)
unfolding all_ice queued
all_ice_waits from [] c pc g d = (refl, sym (append_nil (queue from c)), refl)
all_ice_waits from (x ∷ xs) c pc g d =
    let ih = all_ice_waits from xs (queued from x c) pc g d in
    let one = ice_queued from x c pc g d in
    (
      rw (all_ice, one) (ih.0),
      rw (all_ice, one)
          (ih.1
            ∙ (ap (λ l. l ++ xs) (queue-queued from x c)
                ∙ append_assoc (queue from c) (x ∷ []) xs)),
      rw (all_ice, one) (ih.2),
    )

drained_queue : (from : ℕ) (m : JsMap (List ℕ)) → JsMap.get from (JsMap.delete from m) ≡ none
drained_queue from m = get-delete from from m ∙ rw (==_refl from)

answer_drains :
    (from : ℕ) (c : Call) (pc : Pc)
    → JsMap.get from c.peer_conns ≡ some pc
    → pc.signaling ≡ Signaling.have_local_offer
    → ((on_answer true from c).1 ≡ added from (queue from c))
      × (JsMap.get from (on_answer true from c).0.candidates ≡ none)
unfolding on_answer drain_pending_candidates
answer_drains from c pc g s =
    (rw (on_answer, g, s), rw (on_answer, g, s) (drained_queue from c.candidates))

-- Candidates that arrive while our first offer to their user is unanswered, none waiting before,
-- are all held back; the answer then hands each of them to the browser once, in the order in which
-- they came, and none waits any longer.
pub on_answer-all_ice :
    (from : ℕ) (xs : List ℕ) (c : Call) (pc : Pc)
    → JsMap.get from c.peer_conns ≡ some pc
    → pc.described ≡ false
    → pc.signaling ≡ Signaling.have_local_offer
    → JsMap.get from c.candidates ≡ none
    → let held = all_ice from xs c in
      let answered = on_answer true from held.0 in
      (held.1 ≡ []) × (answered.1 ≡ added from xs) × (JsMap.get from answered.0.candidates ≡ none)
on_answer-all_ice from xs c pc g d s n =
    let w = all_ice_waits from xs c pc g d in
    let empty : queue from c ≡ [] = rw (n) in
    let r = answer_drains from (all_ice from xs c).0 pc (ap (λ m. JsMap.get from m) (w.2) ∙ g) s in
    (w.0, r.0 ∙ ap (λ l. added from l) (w.1 ∙ ap (λ l. l ++ xs) empty), r.1)
