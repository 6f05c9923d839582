-- ===== src/Voice/Reconnect.antt =====
-- web/static/voice.js: the reconnection of one peer: `reconnectPlan`, `restartOutcome` and the
-- handlers of the connection's state and of the peer's one timer.
pub mod Recovery
use rivendell.Base.{
  ℕ, zero, suc, ◌+◌, ◌-◌, ◌*◌, ◌/◌, ◌%◌, ◌^◌, ◌≤◌, ◌<◌, min, max, String, ◌≡◌, refl, sym, ap, ap₂,
  subst, subst₂, ◌∙◌, ◌≢◌, ◌↔◌, ◌⊎◌, inl, inr, Bool, true, false, not, ◌&&◌, ◌||◌, Option, none,
  some, List, [], ◌∷◌, ◌++◌, map, arith, ltb, leb, ◌==◌, if◌then◌else◌, ltb→lt, leb→le, ==_iff,
  ==_refl, Bool-cases, get_or, or_else, is_some, Option-cases, same_id, same_id_refl, matches_id,
  length, get_elem?, filter, any, find, All, length-append, contains, append_nil, append_assoc,
}

pub data Connection : Type 0 where
  fresh connecting connected completed disconnected failed closed : Connection

pub data Plan : Type 0 where
  clear no_action : Plan
  restart drop : ℕ → Plan

abbrev pub ice_disconnect_grace_ms : ℕ
ice_disconnect_grace_ms = 5000

abbrev pub ice_restart_retry_ms : ℕ
ice_restart_retry_ms = 4000

abbrev pub answerer_fail_timeout_ms : ℕ
answerer_fail_timeout_ms = 20000

abbrev pub max_ice_restarts : ℕ
max_ice_restarts = 4

unfoldable pub reconnect_plan : Connection → Bool → Plan
reconnect_plan Connection.connected offers = clear
reconnect_plan Connection.completed offers = clear
reconnect_plan Connection.closed offers = clear
reconnect_plan Connection.disconnected offers =
    if offers then restart ice_disconnect_grace_ms else no_action
reconnect_plan Connection.failed offers =
    if offers then restart 0 else drop answerer_fail_timeout_ms
reconnect_plan _ offers = no_action

pub data Outcome : Type 0 where
  recovered gone give_up restarted : Outcome

abbrev pub is_settled : Connection → Bool
is_settled Connection.connected = true
is_settled Connection.completed = true
is_settled Connection.closed = true
is_settled _ = false

unfoldable pub restart_outcome : Connection → ℕ → ℕ → Bool → Outcome
restart_outcome connection restarts max_restarts in_roster =
    if is_settled connection
    then recovered
    else if not in_roster
    then gone
    else if leb max_restarts restarts
    then give_up
    else restarted

unfoldable pub is_offerer : ℕ → ℕ → Bool
is_offerer my_user_id remote_user_id = ltb my_user_id remote_user_id

unfoldable pub polite_for : ℕ → ℕ → Bool
polite_for my_id remote_id = ltb remote_id my_id

abbrev pub is_closed : Connection → Bool
is_closed Connection.closed = true
is_closed _ = false

abbrev pub is_failed : Connection → Bool
is_failed Connection.failed = true
is_failed _ = false

abbrev pub is_disconnected : Connection → Bool
is_disconnected Connection.disconnected = true
is_disconnected _ = false

unfoldable pub effective_connection_state : Connection → Connection → Connection
effective_connection_state connection ice_connection =
    if is_closed connection
    then Connection.closed
    else if is_failed connection || is_failed ice_connection
    then Connection.failed
    else if is_disconnected connection || is_disconnected ice_connection
    then Connection.disconnected
    else connection

-- What a pending timer does when it fires.
pub data Task : Type 0 where
  ice_restart drop_peer : Task

-- A peer: its connection's two states, and its record in `peerMeta`.
pub record Peer : Type 0 where
  pub connection : Connection
  pub ice_connection : Connection
  pub restarts : ℕ
  pub timer : Option (ℕ × Task)

-- What is sent: an offer with fresh ICE, or our presence again.
pub data Sent : Type 0 where
  voice_offer voice_join : Sent

abbrev pub arm_timer : ℕ → Task → Peer → Peer
arm_timer delay_ms task p =
    if is_some p.timer then p else record p { timer = some (delay_ms, task) }

abbrev pub effective : Peer → Connection
unfolding effective_connection_state
effective p = effective_connection_state p.connection p.ice_connection

abbrev pub run_plan : Plan → Peer → Peer
run_plan clear p = record p { timer = none; restarts = 0 }
run_plan (restart delay_ms) p = arm_timer delay_ms ice_restart p
run_plan (drop delay_ms) p = arm_timer delay_ms drop_peer p
run_plan no_action p = p

-- `onconnectionstatechange` and `oniceconnectionstatechange`: the two states are the new ones.
unfoldable pub apply_reconnect_plan : Bool → Peer → Peer
unfolding reconnect_plan effective_connection_state
apply_reconnect_plan offers p = run_plan (reconnect_plan (effective p) offers) p

-- In a call. The peer is gone once it is closed; the offer is made at once.
abbrev pub act_on : Outcome → Bool → Bool → Peer → Option Peer × List Sent
act_on recovered offers offered p = (some (record p { restarts = 0 }), [])
act_on gone offers offered p = (none, [])
act_on give_up offers offered p = (none, voice_join ∷ [])
act_on restarted offers offered p = (
  some (arm_timer ice_restart_retry_ms ice_restart (record p { restarts = p.restarts + 1 })),
  if offers && offered then voice_offer ∷ [] else [],
)

-- `offered` says whether the offer could be made and sent.
unfoldable pub do_ice_restart : Bool → Bool → Bool → Peer → Option Peer × List Sent
unfolding restart_outcome effective_connection_state
do_ice_restart offers in_roster offered p =
    act_on (restart_outcome (effective p) p.restarts max_ice_restarts in_roster) offers offered p

unfoldable pub drop_stuck : Peer → Option Peer × List Sent
unfolding effective_connection_state
drop_stuck p =
    if is_failed (effective p) || is_disconnected (effective p)
    then (none, voice_join ∷ [])
    else (some p, [])

-- The timer fires: the slot is free again, then its task runs.
unfoldable pub timer_fires : Bool → Bool → Bool → Peer → Option Peer × List Sent
unfolding do_ice_restart drop_stuck
timer_fires offers in_roster offered p = elim p.timer [
  | none ↦ (some p, [])
  | some t ↦ elim t.1 [
    | ice_restart ↦ do_ice_restart offers in_roster offered (record p { timer = none })
    | drop_peer ↦ drop_stuck (record p { timer = none })
  ]
]

-- What happens to a peer: its connection changes state, or its timer fires.
pub data Happening : Type 0 where
  changes : Connection → Connection → Happening
  fires : Bool → Bool → Happening

unfoldable pub happen : Bool → Peer → Happening → Option Peer
unfolding apply_reconnect_plan timer_fires
happen offers p (changes c i) =
    some (apply_reconnect_plan offers (record p { connection = c; ice_connection = i }))
happen offers p (fires in_roster offered) = (timer_fires offers in_roster offered p).0

unfoldable pub happen_all : Bool → Option Peer → List Happening → Option Peer
unfolding happen
happen_all offers p [] = p
happen_all offers none (h ∷ hs) = none
happen_all offers (some p) (h ∷ hs) = happen_all offers (happen offers p h) hs
