-- ===== src/Voice/Monitor/Stress.antt =====
-- A stressed uplink ends at the minimum.
use rivendell.Base.{
  ℕ, zero, suc, ◌+◌, ◌-◌, ◌*◌, ◌/◌, ◌≤◌, ◌<◌, max, ◌≡◌, refl, ap, Bool, true, Option, none, some,
  List, [], ◌∷◌, arith, get_or, length, All,
}
use rivendell.Voice.Bitrate.{min_video_bitrate_bps, Signals, uplink_stressed}
use rivendell.Voice.Monitor.{Meta, adapt}
use rivendell.Voice.Monitor.Adapting.{adapt-HasAdapted}

-- A run of intervals.
unfoldable pub adapt_all : ℕ → Bool → Bool → List Signals → Meta → Meta
adapt_all ceiling is_screen motion [] meta = meta
adapt_all ceiling is_screen motion (sig ∷ sigs) meta =
    adapt_all ceiling is_screen motion sigs (adapt ceiling is_screen motion sig meta)

-- What is left of the highest ceiling after that many stressed intervals.
unfoldable decay : ℕ → ℕ
decay zero = 2500000
decay (suc n) = max min_video_bitrate_bps (decay n * 3 / 4)

decay_at : (m n : ℕ) → m ≡ n → decay m ≡ decay n
decay_at m n e = ap decay e

decay_floor : (n : ℕ) → decay (n + 10) ≡ min_video_bitrate_bps
unfolding decay
decay_floor zero = refl
decay_floor (suc n) =
    let next : decay (suc n + 10) ≡ max min_video_bitrate_bps (decay (n + 10) * 3 / 4) =
      decay_at (suc n + 10) (suc (n + 10)) (omega arith) in
    omega (arith, next, decay_floor n)

default_of_low :
    (o : Option ℕ) (d : ℕ) → min_video_bitrate_bps ≤ get_or o 0 → get_or o d ≡ get_or o 0
default_of_low none d h = absurd (omega (arith, h))
default_of_low (some t) d h = refl

stressed_step :
    (ceiling n : ℕ) (is_screen motion : Bool) (sig : Signals) (meta : Meta)
    → min_video_bitrate_bps ≤ ceiling
    → uplink_stressed sig ≡ true
    → 0 < get_or meta.video_target ceiling
    → get_or meta.video_target ceiling ≤ decay n
    → let next = get_or (adapt ceiling is_screen motion sig meta).video_target 0 in
      (min_video_bitrate_bps ≤ next) × (next ≤ decay (suc n))
unfolding decay
stressed_step ceiling n is_screen motion sig meta h s low high =
    let a = adapt-HasAdapted ceiling is_screen motion sig meta h low in
    let prev = get_or meta.video_target ceiling in
    let next = get_or (adapt ceiling is_screen motion sig meta).video_target 0 in
    let b : next ≤ max min_video_bitrate_bps (prev * 3 / 4) = ground (arith, a.4, s) in
    (a.0, omega (arith, b, high))

first_decay : {t soft ceiling : ℕ} → t ≤ soft → soft ≤ ceiling → ceiling ≤ 2500000 → t ≤ decay 0
unfolding decay
first_decay a b c = omega (arith, a, b, c)

adapt_all-decay :
    (ceiling n : ℕ) (is_screen motion : Bool) (sigs : List Signals) (meta : Meta)
    → min_video_bitrate_bps ≤ ceiling
    → All (λ sig. uplink_stressed sig ≡ true) sigs
    → min_video_bitrate_bps ≤ get_or meta.video_target 0
    → get_or meta.video_target 0 ≤ decay n
    → let last = get_or (adapt_all ceiling is_screen motion sigs meta).video_target 0 in
      (min_video_bitrate_bps ≤ last) × (last ≤ decay (length sigs + n))
unfolding adapt_all
adapt_all-decay ceiling n is_screen motion [] meta h s low high =
    (low, omega (arith, high, decay_at (0 + n) n (omega arith)))
adapt_all-decay ceiling n is_screen motion (sig ∷ sigs) meta h s low high =
    let e = default_of_low meta.video_target ceiling low in
    let step =
      stressed_step ceiling n is_screen motion sig meta h s.0 (omega (arith, e, low))
        (omega (arith, e, high)) in
    let rest =
      adapt_all-decay ceiling (suc n) is_screen motion sigs
        (adapt ceiling is_screen motion sig meta) h s.1 step.0 step.1 in
    (
      rest.0,
      omega (arith, rest.1, decay_at (length sigs + suc n) (length (sig ∷ sigs) + n) (omega arith)),
    )

-- Eleven or more stressed intervals in a row, whatever the target was before, bring it to the
-- minimum, under the ceiling of a camera or of a screen.
pub stressed_ends_low :
    (ceiling : ℕ) (is_screen motion : Bool) (sigs : List Signals) (meta : Meta)
    → min_video_bitrate_bps ≤ ceiling
    → ceiling ≤ 2500000
    → 0 < get_or meta.video_target ceiling
    → 11 ≤ length sigs
    → All (λ sig. uplink_stressed sig ≡ true) sigs
    → get_or (adapt_all ceiling is_screen motion sigs meta).video_target 0 ≡ min_video_bitrate_bps
unfolding adapt_all
stressed_ends_low ceiling is_screen motion [] meta h k p n s = absurd (omega (arith, n))
stressed_ends_low ceiling is_screen motion (sig ∷ sigs) meta h k p n s =
    let a = adapt-HasAdapted ceiling is_screen motion sig meta h p in
    let r =
      adapt_all-decay ceiling 0 is_screen motion sigs (adapt ceiling is_screen motion sig meta) h
        s.1 a.0 (first_decay a.1 a.3 k) in
    let e = decay_at (length sigs + 0) ((length sigs - 10) + 10) (omega (arith, n)) in
    omega (arith, r.0, r.1, e, decay_floor (length sigs - 10))
