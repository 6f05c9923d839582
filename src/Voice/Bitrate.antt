-- ===== src/Voice/Bitrate.antt =====
-- web/static/voice.js: the bitrate of one video sender, from the roster's budget and the signals
-- of the last interval. Bitrates are whole numbers of bits per second. A loss fraction is the pair
-- of its counters, compared with a threshold by cross multiplication.
use rivendell.Base.{
  ℕ, ◌+◌, ◌-◌, ◌*◌, ◌/◌, min, max, Bool, true, false, not, ◌&&◌, ◌||◌, Option, none, some, ltb, leb,
  if◌then◌else◌,
}

abbrev pub video_max_bitrate_bps : ℕ
video_max_bitrate_bps = 800000

abbrev pub total_video_uplink_bps : ℕ
total_video_uplink_bps = 1600000

abbrev pub min_video_bitrate_bps : ℕ
min_video_bitrate_bps = 150000

abbrev pub screen_max_bitrate_bps : ℕ
screen_max_bitrate_bps = 2500000

abbrev pub screen_total_uplink_bps : ℕ
screen_total_uplink_bps = 4500000

abbrev pub climb_after_healthy : ℕ
climb_after_healthy = 4

unfoldable pub bitrate_cap_for : ℕ → Bool → Bool → ℕ
bitrate_cap_for num_peers is_video is_screen =
    let ceiling = if is_screen then screen_max_bitrate_bps else video_max_bitrate_bps in
    let total = if is_screen then screen_total_uplink_bps else total_video_uplink_bps in
    let senders = max 1 (num_peers - 1) in
    let per = total / senders in
    if is_video then max min_video_bitrate_bps (min ceiling per) else video_max_bitrate_bps

-- `lost / sent`, of a positive `sent`.
pub record Loss : Type 0 where
  pub lost : ℕ
  pub sent : ℕ

-- The counters never go below 0 here.
unfoldable pub uplink_loss_fraction : ℕ → ℕ → Option ℕ → Option ℕ → Option Loss
uplink_loss_fraction sent_now lost_now (some sent_prev) (some lost_prev) =
    let d_sent = sent_now - sent_prev in
    let d_lost = lost_now - lost_prev in
    if leb sent_now sent_prev || ltb lost_now lost_prev
    then none
    else some (record { lost = min d_sent d_lost; sent = d_sent })
uplink_loss_fraction sent_now lost_now _ _ = none

pub record Signals : Type 0 where
  pub loss_frac : Option Loss
  pub rtt_ms : Option ℕ
  pub cpu_limited : Bool
  pub limited : Bool
  pub fps : Option ℕ

-- At least 8 percent.
abbrev pub loss_stress : Option Loss → Bool
loss_stress none = false
loss_stress (some l) = leb (8 * l.sent) (100 * l.lost)

-- At most 2 percent.
abbrev pub loss_fine : Option Loss → Bool
loss_fine none = true
loss_fine (some l) = leb (100 * l.lost) (2 * l.sent)

abbrev pub rtt_stress : Option ℕ → Bool
rtt_stress none = false
rtt_stress (some r) = leb 600 r

unfoldable pub link_stressed : Signals → Bool
link_stressed sig = loss_stress sig.loss_frac || rtt_stress sig.rtt_ms

unfoldable pub uplink_stressed : Signals → Bool
uplink_stressed sig = link_stressed sig || sig.cpu_limited

-- `typeof prev === "number" && prev > 0 ? prev : d`
abbrev pub positive_or : Option ℕ → ℕ → ℕ
positive_or none d = d
positive_or (some p) d = if ltb 0 p then p else d

unfoldable pub congestion_target : Option ℕ → ℕ → Signals → ℕ → Bool → ℕ
congestion_target prev ceiling sig healthy_streak is_screen =
    let target = positive_or prev ceiling in
    let step = if is_screen then 150000 else 40000 in
    let settled = leb climb_after_healthy healthy_streak in
    let climbs =
      loss_fine sig.loss_frac && not (rtt_stress sig.rtt_ms) && settled && not sig.limited in
    let next : ℕ =
      if uplink_stressed sig then target * 3 / 4 else if climbs then target + step else target in
    max min_video_bitrate_bps (min ceiling next)

unfoldable pub soft_ceiling_for : Option ℕ → ℕ → Option ℕ → Signals → ℕ → Bool → ℕ
soft_ceiling_for prev hard_ceiling prev_target sig healthy_streak is_screen =
    let sc = positive_or prev hard_ceiling in
    let broke_at = positive_or prev_target sc in
    let next : ℕ =
      if link_stressed sig
      then min sc (broke_at * 85 / 100)
      else if leb climb_after_healthy healthy_streak
      then sc + (if is_screen then 20000 else 5000)
      else sc in
    max min_video_bitrate_bps (min hard_ceiling next)
