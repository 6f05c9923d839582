-- ===== src/Voice/Call.antt =====
-- web/static/voice.js: the call, its roster and its peers: joining, leaving, `onVoiceState` and
-- `reconcilePeers`. Media, meters, tones and telemetry are not modelled.
pub mod Roster
use rivendell.Base.{
  ℕ, zero, suc, ◌+◌, ◌-◌, ◌*◌, ◌/◌, ◌%◌, ◌^◌, ◌≤◌, ◌<◌, min, max, String, ◌≡◌, refl, sym, ap, ap₂,
  subst, subst₂, ◌∙◌, ◌≢◌, ◌↔◌, ◌⊎◌, inl, inr, Bool, true, false, not, ◌&&◌, ◌||◌, Option, none,
  some, List, [], ◌∷◌, ◌++◌, map, arith, ltb, leb, ◌==◌, if◌then◌else◌, ltb→lt, leb→le, ==_iff,
  ==_refl, Bool-cases, get_or, or_else, is_some, Option-cases, same_id, same_id_refl, matches_id,
  length, get_elem?, filter, any, find, All, length-append, contains, append_nil, append_assoc,
}
use rivendell.JsMap
use rivendell.JsMap.{JsMap}

pub data Signaling : Type 0 where
  stable have_local_offer : Signaling

-- A connection with its part of `peerMeta`. `described` says whether it has a remote description.
pub record Pc : Type 0 where
  pub signaling : Signaling
  pub described : Bool
  pub making_offer : Bool
  pub ignore_offer : Bool
  pub renegotiate_pending : Bool

pub record Participant : Type 0 where
  pub user_id : ℕ
  pub muted : Bool
  pub video_muted : Bool
  pub sharing : Bool

-- `candidates` is `pendingIceCandidates`.
pub record Call : Type 0 where
  pub my_user_id : ℕ
  pub active_channel_id : Option ℕ
  pub last_voice_seq : ℕ
  pub participants : List Participant
  pub peer_conns : JsMap Pc
  pub candidates : JsMap (List ℕ)

-- What is sent, and what the browser is told to add.
pub data Action : Type 0 where
  voice_join voice_leave : ℕ → Action
  voice_offer voice_answer : ℕ → Action
  add_candidate : ℕ → ℕ → Action

abbrev pub fresh_pc : Pc
fresh_pc = record {
  signaling = Signaling.stable;
  described = false;
  making_offer = false;
  ignore_offer = false;
  renegotiate_pending = false;
}

abbrev pub init_voice : ℕ → Call
init_voice my_id = record {
  my_user_id = my_id;
  active_channel_id = none;
  last_voice_seq = 0;
  participants = [];
  peer_conns = [];
  candidates = [];
}

unfoldable pub create_pc : ℕ → Call → Call
create_pc user c = record c { peer_conns = JsMap.set user fresh_pc c.peer_conns }

unfoldable pub close_peer : ℕ → Call → Call
close_peer user c = record c {
  peer_conns = JsMap.delete user c.peer_conns;
  candidates = JsMap.delete user c.candidates;
}

abbrev pub keys : JsMap Pc → List ℕ
keys [] = []
keys ((k, pc) ∷ m) = k ∷ keys m

-- The loops over `[...peerConns.keys()]`.
unfoldable pub close_unless : List ℕ → List ℕ → Call → Call
unfolding close_peer
close_unless ids [] c = c
close_unless ids (user ∷ users) c =
    close_unless ids users (if contains ids user then c else close_peer user c)

unfoldable pub reconcile_peers : List ℕ → Call → Call
unfolding close_unless
reconcile_peers active_user_ids c = close_unless active_user_ids (keys c.peer_conns) c

unfoldable pub close_all_peers : Call → Call
unfolding close_unless
close_all_peers c = close_unless [] (keys c.peer_conns) c

unfoldable pub end_call_locally : Call → Call
unfolding close_all_peers
end_call_locally c = elim c.active_channel_id [
  | none ↦ c
  | some ch ↦ close_all_peers (record c { active_channel_id = none; participants = [] })
]

unfoldable pub leave_voice_channel : Call → Call × List Action
unfolding end_call_locally
leave_voice_channel c = elim c.active_channel_id [
  | none ↦ (c, [])
  | some ch ↦ (end_call_locally c, voice_leave ch ∷ [])
]

-- Where the browser gives the media that are asked for.
unfoldable pub join_voice_channel : ℕ → Call → Call × List Action
unfolding leave_voice_channel
join_voice_channel ch c =
    if same_id c.active_channel_id (some ch)
    then (c, [])
    else (let left = leave_voice_channel c in
        (
          record left.0 { active_channel_id = some ch; participants = []; last_voice_seq = 0 },
          left.1 ++ (voice_join ch ∷ []),
        ))

pub record VoiceState : Type 0 where
  pub channel_id : ℕ
  pub seq : Option ℕ
  pub participants : List Participant

abbrev pub remote_ids : ℕ → List Participant → List ℕ
remote_ids me [] = []
remote_ids me (p ∷ ps) =
    let rest = remote_ids me ps in if p.user_id == me then rest else p.user_id ∷ rest

-- The connection after its first offer, if one could be made.
abbrev pub offered : Bool → Pc
offered made = record fresh_pc {
  signaling = if made then Signaling.have_local_offer else Signaling.stable;
}

-- A participant: `made` says of which users an offer can be made and set.
unfoldable pub connect_to : (ℕ → Bool) → ℕ → Call → Call × List Action
unfolding create_pc
connect_to made user c =
    if user == c.my_user_id || is_some (JsMap.get user c.peer_conns)
    then (c, [])
    else if ltb c.my_user_id user
    then (
      record c { peer_conns = JsMap.set user (offered (made user)) c.peer_conns },
      if made user then voice_offer user ∷ [] else [],
    )
    else (create_pc user c, [])

unfoldable pub connect_all : (ℕ → Bool) → List Participant → Call → Call × List Action
unfolding connect_to
connect_all made [] c = (c, [])
connect_all made (p ∷ ps) c =
    let first = connect_to made p.user_id c in
    let rest = connect_all made ps first.0 in (rest.0, first.1 ++ rest.1)

-- A snapshot with a number has to be newer than the last one.
abbrev pub is_stale : ℕ → Option ℕ → Bool
is_stale last none = false
is_stale last (some n) = leb n last

unfoldable pub adopt : (ℕ → Bool) → VoiceState → Call → Call × List Action
unfolding connect_all close_unless end_call_locally
adopt made s c =
    let c1 = record c {
      last_voice_seq = get_or s.seq c.last_voice_seq;
      participants = s.participants;
    } in
    let linked = connect_all made s.participants c1 in
    let kept =
      close_unless (remote_ids c.my_user_id s.participants) (keys linked.0.peer_conns) linked.0 in
    (elim s.participants [ [] ↦ end_call_locally kept | p ∷ ps ↦ kept ], linked.1)

unfoldable pub on_voice_state : (ℕ → Bool) → VoiceState → Call → Call × List Action
unfolding adopt
on_voice_state made s c =
    if not (same_id c.active_channel_id (some s.channel_id)) || is_stale c.last_voice_seq s.seq
    then (c, [])
    else adopt made s c
