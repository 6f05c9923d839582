-- ===== src/Examples/Signals.antt =====
-- The roster and the negotiation of a call on small inputs.
use rivendell.Base.{
  ℕ, ◌≤◌, ◌≡◌, refl, true, false, none, some, [], ◌∷◌, ◌++◌, arith, get_elem?, All,
}
use rivendell.JsMap
use rivendell.Voice.Call.{Call, Participant, Pc, Signaling, init_voice, voice_answer, fresh_pc}
use rivendell.Voice.Call.Roster.{Arrival, FollowsArrival, on_all, on_all-Follows}
use rivendell.Voice.Negotiation.{on_offer, on_answer, drain_pending_candidates, added}
use rivendell.Voice.Negotiation.Glare.{waiting, IsSettled, glare_settles}
use rivendell.Voice.Negotiation.Candidates.{all_ice, on_answer-all_ice}

abbrev in_channel : ℕ → Call
in_channel me = record (init_voice me) { active_channel_id = some 4 }

abbrev participant : ℕ → Participant
participant n = record { user_id = n; muted = false; video_muted = true; sharing = false }

-- The newer one comes first.
abbrev first : Arrival
first = (8, participant 5, participant 7 ∷ [])

abbrev late : Arrival
late = (6, participant 5, participant 9 ∷ [])

on_all-Follows_example :
    (z : Arrival) × ((i : ℕ) × (get_elem? (first ∷ late ∷ []) i ≡ some z))
    × All (λ y. y.0 ≤ z.0) (first ∷ late ∷ [])
    × FollowsArrival 5 4 z (on_all (λ u. true) 4 (first ∷ late ∷ []) (in_channel 5))
on_all-Follows_example =
    on_all-Follows (λ u. true) first (late ∷ []) 4 (in_channel 5) refl (omega arith)

abbrev offering : ℕ → ℕ → Call
offering me peer = record (in_channel me) { peer_conns = (peer, waiting true false false) ∷ [] }

glare_settles_example :
    let ignored = on_offer true true 7 (offering 5 7) in
    let answered = on_offer true true 5 (offering 7 5) in
    let settled = on_answer true 7 ignored.0 in
    (ignored.1 ≡ [])
    × (answered.1 ≡ (drain_pending_candidates 5 (offering 7 5)).1 ++ (voice_answer 5 ∷ []))
    × ((pc : Pc) × (JsMap.get 7 settled.0.peer_conns ≡ some pc) × IsSettled false pc)
    × ((pc : Pc) × (JsMap.get 5 answered.0.peer_conns ≡ some pc) × IsSettled true pc)
unfolding JsMap.get
glare_settles_example =
    glare_settles (offering 5 7) (offering 7 5) true false false true false false true refl refl
      (omega arith) refl refl

abbrev first_offer : Pc
first_offer = record fresh_pc { signaling = Signaling.have_local_offer }

abbrev unanswered : Call
unanswered = record (in_channel 5) { peer_conns = (7, first_offer) ∷ [] }

on_answer-all_ice_example :
    let held = all_ice 7 (31 ∷ 32 ∷ []) unanswered in
    let answered = on_answer true 7 held.0 in
    (held.1 ≡ [])
    × (answered.1 ≡ added 7 (31 ∷ 32 ∷ []))
    × (JsMap.get 7 answered.0.candidates ≡ none)
unfolding JsMap.get
on_answer-all_ice_example =
    on_answer-all_ice 7 (31 ∷ 32 ∷ []) unanswered first_offer refl refl refl refl
