-- ===== src/Secret/Events.antt =====
-- web/static/secret.js: `handleSecretEvent` and the calls that end sessions.
pub mod Failures
pub mod Opening
pub mod Authentic
use rivendell.Base.{
  ℕ, zero, suc, ◌+◌, ◌-◌, ◌*◌, ◌/◌, ◌%◌, ◌^◌, ◌≤◌, ◌<◌, min, max, String, ◌≡◌, refl, sym, ap, ap₂,
  subst, subst₂, ◌∙◌, ◌≢◌, ◌↔◌, ◌⊎◌, inl, inr, Bool, true, false, not, ◌&&◌, ◌||◌, Option, none,
  some, List, [], ◌∷◌, ◌++◌, map, arith, ltb, leb, ◌==◌, if◌then◌else◌, ltb→lt, leb→le, ==_iff,
  ==_refl, Bool-cases, get_or, or_else, is_some, Option-cases, same_id, same_id_refl, matches_id,
  length, get_elem?, filter, any, find, All, length-append, contains, append_nil, append_assoc,
}
use rivendell.JsMap
use rivendell.JsMap.{JsMap}
use rivendell.Secret.Bytes.{Bytes}
use rivendell.Secret.Crypto.{Crypto}
use rivendell.Secret.Session.{
  Phase, Session, Client, Offer, Sent, secret_end, Emitted, secret_request, session_active,
  session_ended, dismissed, Attempt, returned, threw, given, Outcome, done, make_session,
  put_session, drop_session, get_session,
}
use rivendell.Secret.Handshake.{complete_of}
use rivendell.Secret.Ratchet.{Wire, receive, is_active}

pub data SecretEvent : Type 0 where
  dismiss ends : ℕ → SecretEvent
  offer : ℕ → ℕ → Option Bytes → Option Bytes → Option Bytes → SecretEvent
  accept : ℕ → ℕ → Option Bytes → Option Bytes → SecretEvent
  msg : ℕ → ℕ → Wire → SecretEvent

abbrev pub is_offered : Phase → Bool
is_offered Phase.offered = true
is_offered _ = false

abbrev pub is_incoming : Phase → Bool
is_incoming Phase.incoming = true
is_incoming _ = false

abbrev pub is_ended : Phase → Bool
is_ended Phase.ended = true
is_ended _ = false

abbrev pub has_offered : Option Session → Bool
has_offered none = false
has_offered (some s) = is_offered s.phase

abbrev pub incoming_of : ℕ → ℕ → Offer → Session
incoming_of ch from o = record (make_session ch from) {
  phase = Phase.incoming;
  pending_offer = some o;
}

-- The reaction to an offer that is not ignored.
abbrev pub request : ℕ → ℕ → Offer → Client → Outcome
request ch from o cl =
    done (put_session ch (incoming_of ch from o) cl) []
      (secret_request ch from (is_some (given o.peer_id_key)) ∷ [])

unfoldable pub on_dismiss : ℕ → Client → Outcome
on_dismiss ch cl =
    done (if has_offered (get_session ch cl) then drop_session ch cl else cl) [] (dismissed ch ∷ [])

unfoldable pub on_end : ℕ → Client → Outcome
on_end ch cl = elim (get_session ch cl) [
  | none ↦ done cl [] []
  | some s ↦
      if is_active s.phase
      then done (put_session ch (record s { phase = Phase.ended }) cl) [] (session_ended ch ∷ [])
      else done (drop_session ch cl) [] (session_ended ch ∷ [])
]

-- `resolve` is the peer's published key, by user.
unfoldable pub on_offer :
    (ℕ → Option Bytes) → ℕ → ℕ → Option Bytes → Option Bytes → Option Bytes → Client → Outcome
on_offer resolve ch from eph sig nonce cl =
    let o : Offer = record {
      eph = eph;
      sig = sig;
      session_nonce = nonce;
      peer_id_key = resolve from;
    } in
    if has_offered (get_session ch cl)
    then (if ltb cl.my_user_id from then done cl [] [] else request ch from o (drop_session ch cl))
    else request ch from o cl

unfoldable pub on_accept :
    Crypto → (ℕ → Option Bytes) → ℕ → ℕ → Option Bytes → Option Bytes → Client → Outcome
unfolding complete_of
on_accept c resolve ch from eph sig cl = elim (get_session ch cl) [
  | none ↦ done cl [] []
  | some s ↦
      if is_offered s.phase && s.peer_user_id == from
      then elim (given (resolve from)) [
        | none ↦ done (drop_session ch cl) [] (session_ended ch ∷ [])
        | some key ↦ elim (complete_of c cl s from key eph sig) [
          | threw e ↦ done (drop_session ch cl) [] (session_ended ch ∷ [])
          | returned t ↦ done (put_session ch t cl) [] (session_active ch t.verified ∷ [])
        ]
      ]
      else done cl [] []
]

unfoldable pub handle_secret_event : Crypto → (ℕ → Option Bytes) → SecretEvent → Client → Outcome
unfolding on_dismiss on_end on_offer on_accept receive
handle_secret_event c resolve (dismiss ch) cl = on_dismiss ch cl
handle_secret_event c resolve (ends ch) cl = on_end ch cl
handle_secret_event c resolve (offer ch from eph sig nonce) cl =
    on_offer resolve ch from eph sig nonce cl
handle_secret_event c resolve (accept ch from eph sig) cl = on_accept c resolve ch from eph sig cl
handle_secret_event c resolve (msg ch from wire) cl = receive c ch from wire cl

unfoldable pub decline_secret : ℕ → Client → Outcome
decline_secret ch cl = done (drop_session ch cl) (secret_end ch ∷ []) []

unfoldable pub end_secret : ℕ → Client → Outcome
end_secret ch cl = done (drop_session ch cl) (secret_end ch ∷ []) (session_ended ch ∷ [])

unfoldable pub clear_ended_session : ℕ → Client → Client
clear_ended_session ch cl = elim (get_session ch cl) [
  | none ↦ cl
  | some s ↦ if is_ended s.phase then drop_session ch cl else cl
]

abbrev pub is_open : Phase → Bool
is_open p = is_active p || is_offered p || is_incoming p

-- The sessions with the peer are ended in place.
unfoldable pub end_with : ℕ → JsMap Session → JsMap Session × List Emitted
end_with peer [] = ([], [])
end_with peer ((ch, s) ∷ m) =
    let rest = end_with peer m in
    if s.peer_user_id == peer && is_open s.phase
    then ((ch, record s { phase = Phase.ended }) ∷ rest.0, session_ended ch ∷ rest.1)
    else ((ch, s) ∷ rest.0, rest.1)

unfoldable pub terminate_session_for_peer : ℕ → Client → Outcome
unfolding end_with
terminate_session_for_peer peer cl =
    let t = end_with peer cl.sessions in done (record cl { sessions = t.0 }) [] t.1

unfoldable pub ends_of : JsMap Session → List Sent
ends_of [] = []
ends_of ((ch, s) ∷ m) =
    let rest = ends_of m in
    if is_active s.phase || is_offered s.phase then secret_end ch ∷ rest else rest

unfoldable pub get_pending_offer : ℕ → Client → Option Offer
get_pending_offer ch cl = elim (get_session ch cl) [
  | none ↦ none
  | some s ↦ if is_incoming s.phase then s.pending_offer else none
]
