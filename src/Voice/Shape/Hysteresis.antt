-- ===== src/Voice/Shape/Hysteresis.antt =====
-- The resolution does not flap.
use rivendell.Base.{ℕ, ◌+◌, ◌*◌, ◌/◌, ◌≤◌, ◌<◌, ◌≡◌, ◌⊎◌, inl, inr, Bool, true, false, some, arith}
use rivendell.Voice.Shape.{Shape, resolution_with_hysteresis, video_scale_for_target}
use rivendell.Voice.Shape.{settle}
use rivendell.Base.{◌⊎◌, inl, inr, ◌<◌, ◌+◌}

trans_le : {a b c : ℕ} → a ≤ b → b ≤ c → a ≤ c
trans_le h k = omega arith

-- One of the three scales.
abbrev pub IsScale : ℕ → Type 0
IsScale s = (s ≡ 1) ⊎ ((s ≡ 2) ⊎ (s ≡ 4))

-- A higher bitrate never calls for a coarser scale.
abbrev scale_at : ℕ → Bool → Bool → ℕ
scale_at t is_screen motion = (video_scale_for_target t is_screen motion).scale_resolution_down_by

scale_at_mono :
    (s t : ℕ) (is_screen motion : Bool)
    → s ≤ t
    → scale_at t is_screen motion ≤ scale_at s is_screen motion
unfolding video_scale_for_target
scale_at_mono s t true motion h = ground arith
scale_at_mono s t false motion h = ground arith

scale_at-IsScale : (t : ℕ) (is_screen motion : Bool) → IsScale (scale_at t is_screen motion)
unfolding video_scale_for_target
scale_at-IsScale t true motion = ground arith
scale_at-IsScale t false motion = ground arith

abbrev pub next_scale : ℕ → ℕ → Bool → Bool → ℕ
next_scale p t is_screen motion =
    (resolution_with_hysteresis (some p) t is_screen motion).scale_resolution_down_by

settle_lem :
    (p : ℕ) (want damped : Shape)
    → IsScale p
    → IsScale want.scale_resolution_down_by
    → let next = settle (some p) want damped in
      IsScale next.scale_resolution_down_by
      × (p ≤ want.scale_resolution_down_by
          → next.scale_resolution_down_by ≡ want.scale_resolution_down_by)
      × (want.scale_resolution_down_by ≤ next.scale_resolution_down_by)
      × (p ≤ 2 * next.scale_resolution_down_by)
      × (next.max_framerate ≡ want.max_framerate)
unfolding settle
settle_lem p want damped (inl h) (inl w) = ground arith
settle_lem p want damped (inl h) (inr (inl w)) = ground arith
settle_lem p want damped (inl h) (inr (inr w)) = ground arith
settle_lem p want damped (inr (inl h)) (inl w) = ground arith
settle_lem p want damped (inr (inl h)) (inr (inl w)) = ground arith
settle_lem p want damped (inr (inl h)) (inr (inr w)) = ground arith
settle_lem p want damped (inr (inr h)) (inl w) = ground arith
settle_lem p want damped (inr (inr h)) (inr (inl w)) = ground arith
settle_lem p want damped (inr (inr h)) (inr (inr w)) = ground arith

-- A scale made finer is no finer than the damped one.
settle-Damped :
    (p : ℕ) (want damped : Shape)
    → IsScale p
    → IsScale want.scale_resolution_down_by
    → IsScale damped.scale_resolution_down_by
    → (settle (some p) want damped).scale_resolution_down_by < p
    → damped.scale_resolution_down_by ≤ (settle (some p) want damped).scale_resolution_down_by
unfolding settle
settle-Damped p want damped (inl h) (inl w) d f = ground arith
settle-Damped p want damped (inl h) (inr (inl w)) d f = ground arith
settle-Damped p want damped (inl h) (inr (inr w)) d f = ground arith
settle-Damped p want damped (inr (inl h)) (inl w) d f = ground arith
settle-Damped p want damped (inr (inl h)) (inr (inl w)) d f = ground arith
settle-Damped p want damped (inr (inl h)) (inr (inr w)) d f = ground arith
settle-Damped p want damped (inr (inr h)) (inl w) d f = ground arith
settle-Damped p want damped (inr (inr h)) (inr (inl w)) d f = ground arith
settle-Damped p want damped (inr (inr h)) (inr (inr w)) d f = ground arith

settle_finer :
    (p : ℕ) (want damped : Shape)
    → IsScale p
    → want.scale_resolution_down_by ≤ p
    → (settle (some p) want damped).scale_resolution_down_by ≤ p
unfolding settle
settle_finer p want damped (inl h) w = ground arith
settle_finer p want damped (inr (inl h)) w = ground arith
settle_finer p want damped (inr (inr h)) w = ground arith

lt_or_le : (a b : ℕ) → (a < b) ⊎ (b ≤ a)
lt_or_le a b = ground arith

-- The scale that follows one of the three is one of the three; it is at once the wanted one if
-- that is as coarse, and otherwise it is never finer than the wanted one nor finer by more than
-- one tier; and the framerate is always the wanted one.
next_scale_lem :
    (p t : ℕ) (is_screen motion : Bool)
    → IsScale p
    → let want = video_scale_for_target t is_screen motion in
      let next = resolution_with_hysteresis (some p) t is_screen motion in
      IsScale next.scale_resolution_down_by
      × (p ≤ want.scale_resolution_down_by
          → next.scale_resolution_down_by ≡ want.scale_resolution_down_by)
      × (want.scale_resolution_down_by ≤ next.scale_resolution_down_by)
      × (p ≤ 2 * next.scale_resolution_down_by)
      × (next.max_framerate ≡ want.max_framerate)
unfolding resolution_with_hysteresis
next_scale_lem p t is_screen motion h =
    let w = scale_at-IsScale t is_screen motion in
    let d = scale_at-IsScale (t * 4 / 5) is_screen motion in ground arith

-- Once a bitrate has made the resolution finer, no bitrate of at least four fifths of it makes
-- the resolution coarser again.
refined_stays :
    (p t u : ℕ) (is_screen motion : Bool)
    → IsScale p
    → next_scale p t is_screen motion < p
    → t * 4 / 5 ≤ u
    → next_scale (next_scale p t is_screen motion) u is_screen motion
      ≤ next_scale p t is_screen motion
unfolding resolution_with_hysteresis
refined_stays p t u is_screen motion h finer near =
    let want = video_scale_for_target t is_screen motion in
    let damped = video_scale_for_target (t * 4 / 5) is_screen motion in
    settle_finer (next_scale p t is_screen motion) (video_scale_for_target u is_screen motion)
      (video_scale_for_target (u * 4 / 5) is_screen motion)
      (settle_lem p want damped h (scale_at-IsScale t is_screen motion)).0
      (trans_le (scale_at_mono (t * 4 / 5) u is_screen motion near) (
        settle-Damped p want damped h (scale_at-IsScale t is_screen motion)
          (scale_at-IsScale (t * 4 / 5) is_screen motion) finer))

-- The scale that follows one of the three is one of the three; it is at once the wanted one if
-- that is as coarse, and otherwise it is never finer than the wanted one nor finer by more than
-- one tier; the framerate is always the wanted one; and either the bitrate has not made the
-- resolution finer, or no bitrate of at least four fifths of it, rounded down, makes it
-- coarser in the next step.
pub resolution_with_hysteresis_lem :
    (p t extra : ℕ) (is_screen motion : Bool)
    → IsScale p
    → let want = video_scale_for_target t is_screen motion in
      let next = resolution_with_hysteresis (some p) t is_screen motion in
      let at = next.scale_resolution_down_by in
      IsScale at
      × ((want.scale_resolution_down_by < p) ⊎ (at ≡ want.scale_resolution_down_by))
      × (want.scale_resolution_down_by ≤ at)
      × (p ≤ 2 * at)
      × (next.max_framerate ≡ want.max_framerate)
      × ((p ≤ at) ⊎ (next_scale at (t * 4 / 5 + extra) is_screen motion ≤ at))
resolution_with_hysteresis_lem p t extra is_screen motion h =
    let n = next_scale_lem p t is_screen motion h in
    let want = (video_scale_for_target t is_screen motion).scale_resolution_down_by in
    (
      n.0,
      elim (lt_or_le want p) [ inl l ↦ inl l | inr l ↦ inr (n.1 l) ],
      n.2,
      n.3,
      n.4,
      elim (lt_or_le (next_scale p t is_screen motion) p) [
        | inl l ↦ inr (refined_stays p t (t * 4 / 5 + extra) is_screen motion h l (omega arith))
        | inr l ↦ inl l
      ],
    )
