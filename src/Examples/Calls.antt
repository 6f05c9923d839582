-- ===== src/Examples/Calls.antt =====
-- The decisions of a call on small inputs.
use rivendell.Base.{
  ◌+◌, ◌*◌, ◌/◌, ◌≤◌, ◌<◌, ◌≡◌, refl, ◌⊎◌, inr, true, false, none, some, List, [], ◌∷◌, arith,
  get_or,
}
use rivendell.Voice.Bitrate.{Signals, min_video_bitrate_bps}
use rivendell.Voice.Shape.{resolution_with_hysteresis, video_scale_for_target}
use rivendell.Voice.Shape.Hysteresis.{IsScale, resolution_with_hysteresis_lem, next_scale}
use rivendell.Voice.Monitor.{Meta, adapt}
use rivendell.Voice.Monitor.Adapting.{adapt-HasAdapted, HasAdapted}
use rivendell.Voice.Monitor.Stress.{stressed_ends_low, adapt_all}
use rivendell.Voice.Reconnect.{
  Peer, Connection, changes, fires, ice_restart, happen_all, is_offerer, polite_for, reconnect_plan,
  restart, drop, answerer_fail_timeout_ms,
}
use rivendell.Voice.Reconnect.Recovery.{broken_peer_closes}
use rivendell.Base.{◌<◌, ◌/◌}
use rivendell.Base.{◌⊎◌, ◌+◌}

-- A slow round trip.
abbrev slow : Signals
slow = record {
  loss_frac = none;
  rtt_ms = some 900;
  cpu_limited = false;
  limited = false;
  fps = none;
}

abbrev fresh_meta : Meta
fresh_meta = record {
  video_target = none;
  loss_prev = none;
  healthy_streak = 0;
  video_scale = none;
  soft_ceiling = none;
}

adapt-HasAdapted_example : HasAdapted 800000 800000 slow (adapt 800000 false false slow fresh_meta)
adapt-HasAdapted_example =
    adapt-HasAdapted 800000 false false slow fresh_meta (omega arith) (omega arith)

abbrev eleven_slow : List Signals
eleven_slow = slow ∷ slow ∷ slow ∷ slow ∷ slow ∷ slow ∷ slow ∷ slow ∷ slow ∷ slow ∷ slow ∷ []

stressed_ends_low_example :
    get_or (adapt_all 800000 false false eleven_slow fresh_meta).video_target 0
    ≡ min_video_bitrate_bps
unfolding rivendell.Voice.Bitrate.uplink_stressed rivendell.Voice.Bitrate.link_stressed
stressed_ends_low_example =
    stressed_ends_low 800000 false false eleven_slow fresh_meta (omega arith) (omega arith)
      (omega arith) (omega arith)
      (refl, (refl, (refl, (refl, (refl, (refl, (refl, (refl, (refl, (refl, (refl, tt)))))))))))

resolution_with_hysteresis_lem_example :
    let want = video_scale_for_target 620000 false false in
    let next = resolution_with_hysteresis (some 4) 620000 false false in
    let at = next.scale_resolution_down_by in
    IsScale at
    × ((want.scale_resolution_down_by < 4) ⊎ (at ≡ want.scale_resolution_down_by))
    × (want.scale_resolution_down_by ≤ at)
    × (4 ≤ 2 * at)
    × (next.max_framerate ≡ want.max_framerate)
    × ((4 ≤ at) ⊎ (next_scale at (620000 * 4 / 5 + 1000) false false ≤ at))
resolution_with_hysteresis_lem_example =
    resolution_with_hysteresis_lem 4 620000 1000 false false (inr (inr refl))

-- A peer on its last restart.
abbrev failing_peer : Peer
failing_peer = record {
  connection = Connection.failed;
  ice_connection = Connection.failed;
  restarts = 4;
  timer = some (4000, ice_restart);
}

broken_peer_closes_example :
    happen_all true
      (some failing_peer)
      (changes Connection.disconnected Connection.failed ∷ fires true true ∷ [])
    ≡ none
unfolding rivendell.Voice.Reconnect.Recovery.NeverSettles
    rivendell.Voice.Reconnect.effective_connection_state
broken_peer_closes_example =
    broken_peer_closes failing_peer true
      (changes Connection.disconnected Connection.failed ∷ fires true true ∷ [])
      (record { broken = refl; delay = 4000; armed = refl; few = omega arith }) (refl, tt)
      (omega arith)
