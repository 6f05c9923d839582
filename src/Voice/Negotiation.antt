-- ===== src/Voice/Negotiation.antt =====
-- web/static/voice.js: the signals of a call, by perfect negotiation: `sendOffer`,
-- `maybeRenegotiate`, `onOffer`, `onAnswer` and `onICE`. The frames of the server are handled one
-- at a time (`handleVoiceSignal`); an offer of our own is made between two of them, and so is a
-- start and an end.
pub mod Glare
pub mod Candidates
use rivendell.Base.{
  ℕ, zero, suc, ◌+◌, ◌-◌, ◌*◌, ◌/◌, ◌%◌, ◌^◌, ◌≤◌, ◌<◌, min, max, String, ◌≡◌, refl, sym, ap, ap₂,
  subst, subst₂, ◌∙◌, ◌≢◌, ◌↔◌, ◌⊎◌, inl, inr, Bool, true, false, not, ◌&&◌, ◌||◌, Option, none,
  some, List, [], ◌∷◌, ◌++◌, map, arith, ltb, leb, ◌==◌, if◌then◌else◌, ltb→lt, leb→le, ==_iff,
  ==_refl, Bool-cases, get_or, or_else, is_some, Option-cases, same_id, same_id_refl, matches_id,
  length, get_elem?, filter, any, find, All, length-append, contains, append_nil, append_assoc,
}
use rivendell.JsMap
use rivendell.JsMap.{JsMap}
use rivendell.Voice.Call.{
  Pc, Call, Signaling, Action, voice_offer, voice_answer, add_candidate, fresh_pc, create_pc,
}
use rivendell.Voice.Reconnect.{polite_for}

abbrev pub is_stable : Signaling → Bool
is_stable Signaling.stable = true
is_stable Signaling.have_local_offer = false

abbrev pub in_call : Call → Bool
in_call c = is_some c.active_channel_id

abbrev pub put_pc : ℕ → Pc → Call → Call
put_pc user pc c = record c { peer_conns = JsMap.set user pc c.peer_conns }

-- `sendOffer` up to its await.
abbrev pub offer_from : Pc → Pc
offer_from pc =
    if not pc.described
    then pc
    else (if is_stable pc.signaling
        then record pc { making_offer = true; renegotiate_pending = false }
        else record pc { renegotiate_pending = true })

unfoldable pub send_offer : ℕ → Call → Call
send_offer user c = elim (JsMap.get user c.peer_conns) [
  | none ↦ c
  | some pc ↦ if in_call c then put_pc user (offer_from pc) c else c
]

-- Its end: `made` says whether the browser made and set the offer.
unfoldable pub offer_ends : Bool → ℕ → Call → Call × List Action
offer_ends made user c = elim (JsMap.get user c.peer_conns) [
  | none ↦ (c, [])
  | some pc ↦
      if made
      then (
        put_pc user (record pc { signaling = Signaling.have_local_offer; making_offer = false }) c,
        voice_offer user ∷ [],
      )
      else (put_pc user (record pc { making_offer = false }) c, [])
]

unfoldable pub maybe_renegotiate : Bool → Pc → Pc
maybe_renegotiate active pc =
    if active && pc.renegotiate_pending && not pc.making_offer && is_stable pc.signaling
    then offer_from pc
    else pc

abbrev pub added : ℕ → List ℕ → List Action
added user [] = []
added user (x ∷ xs) = add_candidate user x ∷ added user xs

-- The candidates that wait are handed to the browser, in their order.
unfoldable pub drain_pending_candidates : ℕ → Call → Call × List Action
drain_pending_candidates user c = (
  record c { candidates = JsMap.delete user c.candidates },
  added user (get_or (JsMap.get user c.candidates) []),
)

abbrev pub is_collision : Pc → Bool
is_collision pc = pc.making_offer || not (is_stable pc.signaling)

-- The connection that answered an offer; `unsent` is `hasUnsentLocalTrack` then.
unfoldable pub answering : Bool → Bool → Pc → Pc
unfolding maybe_renegotiate
answering active unsent pc = maybe_renegotiate active (record pc {
  signaling = Signaling.stable;
  described = true;
  renegotiate_pending = unsent || pc.renegotiate_pending;
})

-- `applies` says whether the browser takes the offer and makes an answer.
unfoldable pub take_offer : Bool → Bool → ℕ → Pc → Call → Call × List Action
unfolding polite_for answering drain_pending_candidates
take_offer applies unsent from pc c =
    let ignore = not (polite_for c.my_user_id from) && is_collision pc in
    let pc1 = record pc { ignore_offer = ignore } in
    if ignore || not applies
    then (put_pc from pc1 c, [])
    else (let drained = drain_pending_candidates from c in
        (
          put_pc from (answering (in_call c) unsent pc1) drained.0,
          drained.1 ++ (voice_answer from ∷ []),
        ))

unfoldable pub on_offer : Bool → Bool → ℕ → Call → Call × List Action
unfolding take_offer create_pc
on_offer applies unsent from c =
    if in_call c
    then take_offer applies unsent from (get_or (JsMap.get from c.peer_conns) fresh_pc) c
    else (c, [])

unfoldable pub on_answer : Bool → ℕ → Call → Call × List Action
unfolding maybe_renegotiate drain_pending_candidates
on_answer applies from c = elim (JsMap.get from c.peer_conns) [
  | none ↦ (c, [])
  | some pc ↦
      if is_stable pc.signaling || not applies
      then (c, [])
      else (let drained = drain_pending_candidates from c in
          (
            put_pc from
                (maybe_renegotiate (in_call c)
                  (record pc { signaling = Signaling.stable; described = true }))
                drained.0,
            drained.1,
          ))
]

-- A frame without a candidate has none.
unfoldable pub on_ice : ℕ → Option ℕ → Call → Call × List Action
on_ice from none c = (c, [])
on_ice from (some x) c = elim (JsMap.get from c.peer_conns) [
  | none ↦ (c, [])
  | some pc ↦ if pc.described then (c, add_candidate from x ∷ []) else (
    record c {
      candidates =
          JsMap.set from (get_or (JsMap.get from c.candidates) [] ++ (x ∷ [])) c.candidates;
    },
    [],
  )
]
