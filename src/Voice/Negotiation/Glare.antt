-- ===== src/Voice/Negotiation/Glare.antt =====
-- Two offers that cross.
use rivendell.Base.{
  ℕ, ◌<◌, ◌≡◌, refl, ap, ◌∙◌, Bool, true, false, ◌||◌, some, [], ◌∷◌, ◌++◌, arith, ==_refl,
}
use rivendell.JsMap
use rivendell.JsMap.{JsMap, get-set}
use rivendell.Voice.Call.{Pc, Call, Signaling, voice_answer}
use rivendell.Voice.Reconnect.{polite_for}
use rivendell.Voice.Negotiation.{
  in_call, put_pc, on_offer, on_answer, take_offer, answering, maybe_renegotiate,
  drain_pending_candidates, is_collision,
}

put_get : (user : ℕ) (pc : Pc) (c : Call) → JsMap.get user (put_pc user pc c).peer_conns ≡ some pc
put_get user pc c = get-set user user pc c.peer_conns ∙ rw (==_refl user)

-- The offer of a peer that waits for an answer to its own, by the impolite one.
impolite_ignores :
    (from : ℕ) (applies unsent : Bool) (c : Call) (pc : Pc)
    → in_call c ≡ true
    → JsMap.get from c.peer_conns ≡ some pc
    → polite_for c.my_user_id from ≡ false
    → is_collision pc ≡ true
    → on_offer applies unsent from c ≡ (put_pc from (record pc { ignore_offer = true }) c, [])
unfolding on_offer take_offer
impolite_ignores from applies unsent c pc i g p h = rw (on_offer, i, g, take_offer, p, h)

polite_answers :
    (from : ℕ) (unsent : Bool) (c : Call) (pc : Pc)
    → in_call c ≡ true
    → JsMap.get from c.peer_conns ≡ some pc
    → polite_for c.my_user_id from ≡ true
    → on_offer true unsent from c ≡ (
      put_pc from
          (answering true unsent (record pc { ignore_offer = false }))
          (drain_pending_candidates from c).0,
      (drain_pending_candidates from c).1 ++ (voice_answer from ∷ []),
    )
unfolding on_offer take_offer
polite_answers from unsent c pc i g p = rw (on_offer, i, g, take_offer, p)

-- A connection that waits for the answer to its offer.
abbrev pub waiting : Bool → Bool → Bool → Pc
waiting described ignored pending = record {
  signaling = Signaling.have_local_offer;
  described = described;
  making_offer = false;
  ignore_offer = ignored;
  renegotiate_pending = pending;
}

-- Settled, and making a new offer at once if one is owed.
abbrev pub IsSettled : Bool → Pc → Type 0
IsSettled owed pc =
    (pc.signaling ≡ Signaling.stable)
    × (pc.described ≡ true)
    × (pc.making_offer ≡ owed)
    × (pc.renegotiate_pending ≡ false)

settles :
    (ignored owed : Bool)
    → IsSettled owed (
        maybe_renegotiate true
          (record (waiting true ignored owed) { signaling = Signaling.stable }))
unfolding maybe_renegotiate
settles ignored true = (refl, refl, refl, refl)
settles ignored false = (refl, refl, refl, refl)

answer_settles :
    (from : ℕ) (c : Call) (d g r : Bool)
    → in_call c ≡ true
    → JsMap.get from c.peer_conns ≡ some (waiting d g r)
    → (on_answer true from c).0
      ≡ put_pc from
          (maybe_renegotiate true (record (waiting true g r) { signaling = Signaling.stable }))
          (drain_pending_candidates from c).0
unfolding on_answer
answer_settles from c d g r i h = rw (on_answer, h, i)

-- Two users in a call wait for answers to offers that crossed. The one with the lower id ignores
-- the other's offer and answers nothing; the other one answers, and with that answer both
-- connections are settled. Each makes a new offer at once if it owes one: the higher one also if
-- a track of its own was left unsent when its offer was rolled back.
pub glare_settles :
    (a b : Call) (da ga ra db gb rb unsent : Bool)
    → in_call a ≡ true
    → in_call b ≡ true
    → a.my_user_id < b.my_user_id
    → JsMap.get b.my_user_id a.peer_conns ≡ some (waiting da ga ra)
    → JsMap.get a.my_user_id b.peer_conns ≡ some (waiting db gb rb)
    → let ignored = on_offer true unsent b.my_user_id a in
      let answered = on_offer true unsent a.my_user_id b in
      let settled = on_answer true b.my_user_id ignored.0 in
      (ignored.1 ≡ [])
      × (answered.1
          ≡ (drain_pending_candidates a.my_user_id b).1 ++ (voice_answer a.my_user_id ∷ []))
      × ((pc : Pc) × (JsMap.get b.my_user_id settled.0.peer_conns ≡ some pc) × IsSettled ra pc)
      × ((pc : Pc) × (JsMap.get a.my_user_id answered.0.peer_conns ≡ some pc)
          × IsSettled (unsent || rb) pc)
unfolding polite_for answering drain_pending_candidates
glare_settles a b da ga ra db gb rb unsent ia ib l pa pb =
    let low : polite_for a.my_user_id b.my_user_id ≡ false = ground arith in
    let high : polite_for b.my_user_id a.my_user_id ≡ true = ground arith in
    let ignored = impolite_ignores b.my_user_id true unsent a (waiting da ga ra) ia pa low refl in
    let answered = polite_answers a.my_user_id unsent b (waiting db gb rb) ib pb high in
    let a1 = put_pc b.my_user_id (waiting da true ra) a in
    let qa =
      maybe_renegotiate true (record (waiting true true ra) { signaling = Signaling.stable }) in
    let qb =
      maybe_renegotiate true
        (record (waiting true false (unsent || rb)) { signaling = Signaling.stable }) in
    let settled =
      answer_settles b.my_user_id a1 da true ra ia (put_get b.my_user_id (waiting da true ra) a) in
    (
      ap (λ x. x.1) ignored,
      ap (λ x. x.1) answered,
      (
        qa,
        rw (ignored, settled)
            (put_get b.my_user_id qa (drain_pending_candidates b.my_user_id a1).0),
        settles true ra,
      ),
      (
        qb,
        rw (answered) (put_get a.my_user_id qb (drain_pending_candidates a.my_user_id b).0),
        settles false (unsent || rb),
      ),
    )
