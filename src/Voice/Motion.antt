-- ===== src/Voice/Motion.antt =====
-- web/static/voice.js: `detectScreenMotion`, the latch of a shared screen that plays a video.
use rivendell.Base.{
  ℕ, ◌+◌, ◌≤◌, ◌<◌, ◌≡◌, refl, sym, subst, Bool, true, false, not, Option, none, some, List, [],
  ◌∷◌, arith, leb, if◌then◌else◌,
}

pub record Latch : Type 0 where
  pub active : Bool
  pub ticks : ℕ

abbrev pub latch : Bool → ℕ → Latch
latch a t = record { active = a; ticks = t }

unfoldable pub detect_screen_motion : Latch → Option ℕ → Latch
detect_screen_motion s none = latch s.active 0
detect_screen_motion s (some fps) =
    let up = if leb 14 fps then s.ticks + 1 else 0 in
    let down = if leb fps 6 then s.ticks + 1 else 0 in
    if not s.active
    then (if leb 2 up then latch true 0 else latch false up)
    else if leb 3 down
    then latch false 0
    else latch true down

-- A run of samples.
unfoldable pub detect_all : Latch → List (Option ℕ) → Latch
detect_all s [] = s
detect_all s (f ∷ fs) = detect_all (detect_screen_motion s f) fs

-- A sample that argues for a playing video, and one for a document.
abbrev pub is_fast : Option ℕ → Bool
is_fast none = false
is_fast (some f) = leb 14 f

abbrev pub is_still : Option ℕ → Bool
is_still none = false
is_still (some f) = leb f 6

-- A sample that argues against the latch.
abbrev pub against : Bool → Option ℕ → Bool
against true f = is_still f
against false f = is_fast f

-- The streak that flips the latch.
abbrev pub needed : Bool → ℕ
needed true = 3
needed false = 2

-- The samples in a row that argue against `a`, counted on from `n`.
abbrev pub counted : Bool → ℕ → Option ℕ → ℕ
counted a n f = if against a f then n + 1 else 0

-- No streak against `a` is completed.
unfoldable pub IsCalm : Bool → ℕ → List (Option ℕ) → Type 0
IsCalm a n [] = Unit
IsCalm a n (f ∷ fs) = (counted a n f < needed a) × IsCalm a (counted a n f) fs

detect_screen_motion_calm :
    (a : Bool) (n : ℕ) (f : Option ℕ)
    → counted a n f < needed a
    → detect_screen_motion (latch a n) f ≡ latch a (counted a n f)
unfolding detect_screen_motion
detect_screen_motion_calm true n none h = refl
detect_screen_motion_calm false n none h = refl
detect_screen_motion_calm true n (some fps) h = ground arith
detect_screen_motion_calm false n (some fps) h = ground arith

detect_screen_motion_flips :
    (a : Bool) (n : ℕ) (f : Option ℕ)
    → needed a ≤ counted a n f
    → detect_screen_motion (latch a n) f ≡ latch (not a) 0
unfolding detect_screen_motion
detect_screen_motion_flips true n none h = absurd (omega (arith, h))
detect_screen_motion_flips false n none h = absurd (omega (arith, h))
detect_screen_motion_flips true n (some fps) h = ground arith
detect_screen_motion_flips false n (some fps) h = ground arith

pub detect_all_calm :
    (a : Bool) (n : ℕ) (fs : List (Option ℕ))
    → IsCalm a n fs
    → (detect_all (latch a n) fs).active ≡ a
unfolding detect_all IsCalm
detect_all_calm a n [] h = refl
detect_all_calm a n (f ∷ fs) h =
    subst (λ s. (detect_all s fs).active ≡ a) (sym (detect_screen_motion_calm a n f h.0))
      (detect_all_calm a (counted a n f) fs h.1)

-- A run of samples that completes no streak against the latch, followed by one that completes it
-- (the second fast sample in a row while it is off, the third still one while it is on), leaves
-- the latch as it is up to that last sample, which flips it and starts a new count.
pub detect_all_lem :
    (a : Bool) (n : ℕ) (fs : List (Option ℕ)) (last : Option ℕ)
    → IsCalm a n fs
    → needed a ≤ counted a (detect_all (latch a n) fs).ticks last
    → ((detect_all (latch a n) fs).active ≡ a)
      × (detect_screen_motion (detect_all (latch a n) fs) last ≡ latch (not a) 0)
detect_all_lem a n fs last h k =
    let e = detect_all_calm a n fs h in
    (
      e,
      subst
          (λ b.
            detect_screen_motion (latch b (detect_all (latch a n) fs).ticks) last ≡ latch (not a) 0)
          (sym e) (detect_screen_motion_flips a (detect_all (latch a n) fs).ticks last k),
    )
