-- ===== src/Examples/Tracking.antt =====
-- Unread classification and tracking on the small world.
use rivendell.Base.{◌≡◌, refl, Bool, true, false, some, [], ◌∷◌, arith}
use rivendell.State.Counts.{is_muted}
use rivendell.Unread.Classify.{View, classify, classify_lem}
use rivendell.Unread.Tracker.{
  Tracker, new_tracker, open_channel, pin_marker_if_unset, set_manual_unread, set_marker, call, run,
  marker_for, run_keeps_marker,
}
use rivendell.Format.Mentions.{mentions_user}
use rivendell.Examples.Fixtures.{world, hello}
use rivendell.IdMap

abbrev away_view : View
away_view = record { active = true; focused = false; admin_panel_open = false }

-- A mention that arrives while the tab is unfocused counts and alerts.
hello_pings :
    ((classify world true hello away_view).count_mention ≡ true)
    × ((classify world true hello away_view).ping ≡ true)
unfolding classify mentions_user IdMap.get is_muted rivendell.Unread.Classify.is_reply_to_me
hello_pings = (refl, refl)

classify_lem_example :
    let c = classify world true hello away_view in
    (c.count_mention ≡ true → (c.count_unread ≡ true) × (c.mentioned ≡ true))
    × (c.count_unread ≡ true
        → (◌≡◌ {A = Bool} true true) × (c.is_new_from_me ≡ false) × (is_muted world 7 ≡ false))
    × (c.ping ≡ true
        → (◌≡◌ {A = Bool} true true)
          × (c.is_new_from_me ≡ false)
          × (◌≡◌ {A = Bool} false false)
          × (is_muted world 7 ≡ false))
    × (◌≡◌ {A = Bool} true true
        → ◌≡◌ {A = Bool} false true
        → (c.count_unread ≡ false) × (c.ping ≡ true → ◌≡◌ {A = Bool} false true))
classify_lem_example = classify_lem world true hello away_view

abbrev opened : Tracker
opened = call new_tracker (open_channel 7 true (some 42))

run_keeps_marker_example :
    marker_for (run opened (pin_marker_if_unset 7 (some 50) ∷ set_marker 3 9 ∷ [])) 7
    ≡ marker_for opened 7
unfolding call marker_for IdMap.get IdMap.put
run_keeps_marker_example =
    run_keeps_marker 7 opened (pin_marker_if_unset 7 (some 50) ∷ set_marker 3 9 ∷ [])
      ((λ e. e), ((λ e. absurd (omega arith)), tt)) (omega arith)

abbrev marked : Tracker
marked = call new_tracker (set_manual_unread 7)
