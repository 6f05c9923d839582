-- ===== src/Voice/Monitor/Adapting.antt =====
-- What an interval does to a peer's target and its learned ceiling.
use rivendell.Base.{
  ℕ, ◌+◌, ◌*◌, ◌/◌, ◌≤◌, ◌<◌, min, max, ◌≡◌, Bool, Option, some, arith, ltb, if◌then◌else◌, get_or,
}
use rivendell.Voice.Bitrate.{
  congestion_target, soft_ceiling_for, Signals, uplink_stressed, min_video_bitrate_bps,
  link_stressed, climb_after_healthy,
}
use rivendell.Voice.Monitor.{Meta, adapt}
use rivendell.Voice.Monitor.{retarget}
use rivendell.Base.{ltb}

-- The target after an interval.
abbrev pub next_target : ℕ → Bool → Bool → Signals → Meta → ℕ
unfolding adapt
next_target ceiling is_screen motion sig meta =
    get_or (adapt ceiling is_screen motion sig meta).video_target 0

retarget-parts :
    (ceiling : ℕ) (is_screen motion : Bool) (next : ℕ) (meta : Meta)
    → let m = retarget ceiling is_screen motion next meta in
      (m.soft_ceiling ≡ meta.soft_ceiling)
      × (m.video_target ≡ some next)
      × (m.healthy_streak ≡ meta.healthy_streak)
unfolding retarget rivendell.Voice.Monitor.apply_video_bitrate_caps
retarget-parts ceiling is_screen motion next meta = ground arith

-- Where a target lies after an interval that found it at `prev`, with `streak` healthy ones.
abbrev pub IsAdapted : ℕ → ℕ → Signals → ℕ → ℕ → ℕ → Type 0
IsAdapted ceiling prev sig target soft streak =
    (min_video_bitrate_bps ≤ target)
    × (target ≤ soft)
    × (soft ≤ (if link_stressed sig then max min_video_bitrate_bps (prev * 85 / 100) else ceiling))
    × (soft ≤ ceiling)
    × (target ≤ (
        if uplink_stressed sig
        then max min_video_bitrate_bps (prev * 3 / 4)
        else if ltb streak climb_after_healthy
        then max min_video_bitrate_bps prev
        else soft))

computed-IsAdapted :
    (ceiling prev : ℕ) (soft_prev : Option ℕ) (sig : Signals) (streak : ℕ) (is_screen : Bool)
    → min_video_bitrate_bps ≤ ceiling
    → 0 < prev
    → let soft = soft_ceiling_for soft_prev ceiling (some prev) sig streak is_screen in
      IsAdapted ceiling prev sig
        (congestion_target (some prev) (min ceiling soft) sig streak is_screen)
        soft
        streak
unfolding congestion_target soft_ceiling_for
computed-IsAdapted ceiling prev soft_prev sig streak is_screen h p = ground arith

-- The same of a peer's record.
abbrev pub HasAdapted : ℕ → ℕ → Signals → Meta → Type 0
HasAdapted ceiling prev sig m =
    IsAdapted ceiling prev sig (get_or m.video_target 0) (get_or m.soft_ceiling 0) m.healthy_streak

record-HasAdapted :
    (ceiling prev : ℕ) (sig : Signals) (m : Meta) (target soft streak : ℕ)
    → (m.soft_ceiling ≡ some soft) × (m.video_target ≡ some target) × (m.healthy_streak ≡ streak)
    → IsAdapted ceiling prev sig target soft streak
    → HasAdapted ceiling prev sig m
record-HasAdapted ceiling prev sig m target soft streak e h = rw (e.0, e.1, e.2) h

-- After an interval the target lies between the minimum and the learned ceiling, which the
-- roster's ceiling bounds. A stressed interval takes at least a quarter off the target, down to
-- the minimum; one whose link is stressed also puts the learned ceiling at least 15 percent below
-- the target that broke, down to the minimum; and before the fourth healthy interval in a row the
-- target does not grow.
pub adapt-HasAdapted :
    (ceiling : ℕ) (is_screen motion : Bool) (sig : Signals) (meta : Meta)
    → min_video_bitrate_bps ≤ ceiling
    → 0 < get_or meta.video_target ceiling
    → HasAdapted ceiling
        (get_or meta.video_target ceiling)
        sig
        (adapt ceiling is_screen motion sig meta)
unfolding adapt
adapt-HasAdapted ceiling is_screen motion sig meta h p =
    let prev = get_or meta.video_target ceiling in
    let streak = if uplink_stressed sig then 0 else meta.healthy_streak + 1 in
    let soft = soft_ceiling_for meta.soft_ceiling ceiling (some prev) sig streak is_screen in
    let next = congestion_target (some prev) (min ceiling soft) sig streak is_screen in
    record-HasAdapted ceiling prev sig (adapt ceiling is_screen motion sig meta) next soft streak
      (retarget-parts ceiling is_screen motion next
        (record meta { healthy_streak = streak; soft_ceiling = some soft }))
      (computed-IsAdapted ceiling prev meta.soft_ceiling sig streak is_screen h p)
