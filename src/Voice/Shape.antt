-- ===== src/Voice/Shape.antt =====
-- web/static/voice.js: the resolution and the framerate for a bitrate. `screen_full_bps` and the
-- like are the thresholds of `videoScaleForTarget`.
pub mod Hysteresis
use rivendell.Base.{
  ℕ, zero, suc, ◌+◌, ◌-◌, ◌*◌, ◌/◌, ◌%◌, ◌^◌, ◌≤◌, ◌<◌, min, max, String, ◌≡◌, refl, sym, ap, ap₂,
  subst, subst₂, ◌∙◌, ◌≢◌, ◌↔◌, ◌⊎◌, inl, inr, Bool, true, false, not, ◌&&◌, ◌||◌, Option, none,
  some, List, [], ◌∷◌, ◌++◌, map, arith, ltb, leb, ◌==◌, if◌then◌else◌, ltb→lt, leb→le, ==_iff,
  ==_refl, Bool-cases, get_or, or_else, is_some, Option-cases, same_id, same_id_refl, matches_id,
  length, get_elem?, filter, any, find, All, length-append, contains, append_nil, append_assoc,
}

pub record Shape : Type 0 where
  pub scale_resolution_down_by : ℕ
  pub max_framerate : ℕ

abbrev pub shape : ℕ → ℕ → Shape
shape s f = record { scale_resolution_down_by = s; max_framerate = f }

abbrev pub video_scale_full_bps : ℕ
video_scale_full_bps = 500000

abbrev pub video_scale_half_bps : ℕ
video_scale_half_bps = 300000

abbrev pub video_scale_screen_full_bps : ℕ
video_scale_screen_full_bps = 1600000

abbrev pub video_scale_screen_quarter_bps : ℕ
video_scale_screen_quarter_bps = 600000

unfoldable pub video_scale_for_target : ℕ → Bool → Bool → Shape
video_scale_for_target target true motion =
    if leb video_scale_screen_full_bps target
    then shape 1 30
    else if leb video_scale_screen_quarter_bps target
    then shape 2 30
    else shape 4 (if motion then 30 else 24)
video_scale_for_target target false motion =
    if leb video_scale_full_bps target
    then shape 1 24
    else if leb video_scale_half_bps target
    then shape 2 20
    else shape 4 15

-- `prevScale === 2 || prevScale === 4 ? prevScale : d`
abbrev pub coarse_or : Option ℕ → ℕ → ℕ
coarse_or none d = d
coarse_or (some p) d = if p == 2 || p == 4 then p else d

-- The shape to apply after the scale `prev_scale`, where the target calls for `want` and four
-- fifths of it for `damped`.
unfoldable pub settle : Option ℕ → Shape → Shape → Shape
settle prev_scale want damped =
    let prev = coarse_or prev_scale want.scale_resolution_down_by in
    if leb prev want.scale_resolution_down_by
    then want
    else if leb prev damped.scale_resolution_down_by
    then shape prev want.max_framerate
    else shape (max (if prev == 4 then 2 else 1) want.scale_resolution_down_by) want.max_framerate

unfoldable pub resolution_with_hysteresis : Option ℕ → ℕ → Bool → Bool → Shape
unfolding video_scale_for_target settle
resolution_with_hysteresis prev_scale target is_screen motion =
    settle prev_scale (video_scale_for_target target is_screen motion)
      (video_scale_for_target (target * 4 / 5) is_screen motion)
