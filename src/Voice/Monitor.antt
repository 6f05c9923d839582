-- ===== src/Voice/Monitor.antt =====
-- web/static/voice.js: `monitorCongestion`, which samples each uplink and steps its target, and
-- the shape that `applyVideoBitrateCaps` derives from it.
pub mod Adapting
pub mod Stress
use rivendell.Base.{
  ℕ, zero, suc, ◌+◌, ◌-◌, ◌*◌, ◌/◌, ◌%◌, ◌^◌, ◌≤◌, ◌<◌, min, max, String, ◌≡◌, refl, sym, ap, ap₂,
  subst, subst₂, ◌∙◌, ◌≢◌, ◌↔◌, ◌⊎◌, inl, inr, Bool, true, false, not, ◌&&◌, ◌||◌, Option, none,
  some, List, [], ◌∷◌, ◌++◌, map, arith, ltb, leb, ◌==◌, if◌then◌else◌, ltb→lt, leb→le, ==_iff,
  ==_refl, Bool-cases, get_or, or_else, is_some, Option-cases, same_id, same_id_refl, matches_id,
  length, get_elem?, filter, any, find, All, length-append, contains, append_nil, append_assoc,
}
use rivendell.Voice.Bitrate.{
  congestion_target, soft_ceiling_for, min_video_bitrate_bps, Signals, Loss, uplink_loss_fraction,
  uplink_stressed,
}
use rivendell.Voice.Shape.{Shape, resolution_with_hysteresis}

-- What `getStats` reports: our outbound video, and the remote's view of what it receives. The
-- round trip is in milliseconds, rounded.
pub data Limitation : Type 0 where
  bandwidth cpu other : Limitation

pub record Outbound : Type 0 where
  pub ssrc : ℕ
  pub packets_sent : Option ℕ
  pub frames_per_second : Option ℕ
  pub limitation : Limitation

pub record RemoteInbound : Type 0 where
  pub ssrc : ℕ
  pub is_video : Bool
  pub packets_lost : Option ℕ
  pub round_trip_ms : Option ℕ

pub data Stat : Type 0 where
  outbound_video : Outbound → Stat
  remote_inbound : RemoteInbound → Stat
  other_stat : Stat

abbrev pub last_outbound : Option Outbound → List Stat → Option Outbound
last_outbound out [] = out
last_outbound out (outbound_video o ∷ ss) = last_outbound (some o) ss
last_outbound out (_ ∷ ss) = last_outbound out ss

abbrev pub remote_ins : List Stat → List RemoteInbound
remote_ins [] = []
remote_ins (remote_inbound r ∷ ss) = r ∷ remote_ins ss
remote_ins (_ ∷ ss) = remote_ins ss

-- The cumulative counters of the last interval.
pub record Counters : Type 0 where
  pub sent : ℕ
  pub lost : ℕ

abbrev pub remote_of : Outbound → List RemoteInbound → Option RemoteInbound
remote_of out rs = or_else (find (λ r. r.is_video) rs) (find (λ r. r.ssrc == out.ssrc) rs)

abbrev pub is_bandwidth : Limitation → Bool
is_bandwidth Limitation.bandwidth = true
is_bandwidth _ = false

abbrev pub is_cpu : Limitation → Bool
is_cpu Limitation.cpu = true
is_cpu _ = false

abbrev pub lost_of : Option RemoteInbound → Option ℕ
lost_of none = none
lost_of (some r) = r.packets_lost

abbrev pub rtt_of : Option RemoteInbound → Option ℕ
rtt_of none = none
rtt_of (some r) = r.round_trip_ms

abbrev pub loss_since : ℕ → Option ℕ → Option Counters → Option Loss
unfolding uplink_loss_fraction
loss_since sent (some lost) (some p) = uplink_loss_fraction sent lost (some p.sent) (some p.lost)
loss_since sent _ _ = none

-- The counters to keep and the signals.
unfoldable pub read_uplink_signals : List Stat → Option Counters → Option (Counters × Signals)
read_uplink_signals report prev = elim (last_outbound none report) [
  | none ↦ none
  | some out ↦
      let remote = remote_of out (remote_ins report) in
      let sent = get_or out.packets_sent 0 in
      some (
        record { sent = sent; lost = get_or (lost_of remote) 0 },
        record {
          loss_frac = loss_since sent (lost_of remote) prev;
          rtt_ms = rtt_of remote;
          cpu_limited = is_cpu out.limitation;
          limited = is_bandwidth out.limitation;
          fps = out.frames_per_second;
        },
      )
]

pub record Meta : Type 0 where
  pub video_target : Option ℕ
  pub loss_prev : Option Counters
  pub healthy_streak : ℕ
  pub video_scale : Option ℕ
  pub soft_ceiling : Option ℕ

abbrev pub same_number : Option ℕ → Option ℕ → Bool
same_number none none = true
same_number (some a) (some b) = a == b
same_number _ _ = false

unfoldable pub effective_video_cap : ℕ → Option Meta → ℕ
effective_video_cap ceiling none = ceiling
effective_video_cap ceiling (some meta) = elim meta.video_target [
  | none ↦ ceiling
  | some t ↦ max min_video_bitrate_bps (min ceiling t)
]

-- `meta.softCeiling < hardCeiling * 0.9`
abbrev pub is_constrained : Option ℕ → ℕ → Bool
is_constrained none hard = false
is_constrained (some sc) hard = ltb (sc * 10) (hard * 9)

-- The shape that the peer's senders are given, which is remembered.
unfoldable pub applied_shape : ℕ → Bool → Bool → Meta → Shape
unfolding effective_video_cap
applied_shape ceiling is_screen motion_active meta =
    let cap = effective_video_cap ceiling (some meta) in
    let motion = is_screen && motion_active in
    let res_target = if motion && is_constrained meta.soft_ceiling ceiling then cap / 2 else cap in
    resolution_with_hysteresis meta.video_scale res_target is_screen motion

unfoldable pub apply_video_bitrate_caps : ℕ → Bool → Bool → Meta → Meta
unfolding applied_shape
apply_video_bitrate_caps ceiling is_screen motion_active meta = record meta {
  video_scale = some (applied_shape ceiling is_screen motion_active meta).scale_resolution_down_by;
}

-- A target that differs from the peer's is set and applied.
unfoldable pub retarget : ℕ → Bool → Bool → ℕ → Meta → Meta
unfolding apply_video_bitrate_caps
retarget ceiling is_screen motion_active next meta =
    if same_number (some next) meta.video_target
    then meta
    else apply_video_bitrate_caps ceiling is_screen motion_active
        (record meta { video_target = some next })

-- One peer's interval, its signals read.
unfoldable pub adapt : ℕ → Bool → Bool → Signals → Meta → Meta
unfolding retarget
adapt ceiling is_screen motion_active sig meta =
    let streak = if uplink_stressed sig then 0 else meta.healthy_streak + 1 in
    let prev_target = get_or meta.video_target ceiling in
    let soft = soft_ceiling_for meta.soft_ceiling ceiling (some prev_target) sig streak is_screen in
    let next = congestion_target (some prev_target) (min ceiling soft) sig streak is_screen in
    retarget ceiling is_screen motion_active next
      (record meta { healthy_streak = streak; soft_ceiling = some soft })

-- `none` for a `getStats` that fails.
unfoldable pub monitor_peer : ℕ → Bool → Bool → Option (List Stat) → Meta → Meta
unfolding adapt read_uplink_signals
monitor_peer ceiling is_screen motion_active none meta = meta
monitor_peer ceiling is_screen motion_active (some report) meta =
    elim (read_uplink_signals report meta.loss_prev) [
      | none ↦ meta
      | some s ↦ adapt ceiling is_screen motion_active s.1 (record meta { loss_prev = some s.0 })
    ]
