-- ===== src/Examples/Network.antt =====
-- The realtime client, the paging of the pane and the JPEG stripper on small inputs.
use rivendell.Search
use rivendell.Search.{Hit, found, run, answered, start_system}
use rivendell.Search.Pages.{first_pages, ArePositive}
use rivendell.Search.Listing.{run_steps, run_steps-first_pages}
use rivendell.Base.{
  ℕ, zero, suc, ◌-◌, ◌≤◌, ◌<◌, min, ◌≡◌, refl, true, false, Option, none, some, List, [], ◌∷◌, map,
  arith, All,
}
use rivendell.Realtime.{Client, idle_client, connect, closes, step}
use rivendell.Realtime.Invariant.{IsValid, step-IsValid, connect-IsValid}
use rivendell.History.{Pane, older_ends, turn}
use rivendell.History.Pages.{turn-Holds, Holds}
use rivendell.Model.{initial_state}
use rivendell.Examples.Fixtures.{hello, late}
use rivendell.Exif.Jpeg.{strip_jpeg, scan_file}
use rivendell.Exif.Jpeg.Stripped.{strip_jpeg_lem, SameImage}
use rivendell.IdMap

abbrev started : Client
unfolding connect
started = (connect true idle_client).0

started-IsValid : IsValid started
unfolding IdMap.get started connect
started-IsValid = connect-IsValid true idle_client (record {
  low = omega arith;
  high = omega arith;
  no_timers = refl;
  no_retry = refl;
  wants = refl;
  live = λ i h. absurd (cc h);
})

step-IsValid_example : IsValid (step started (closes 0)).0
step-IsValid_example = step-IsValid started (closes 0) started-IsValid

abbrev empty_pane : Pane
empty_pane = record {
  state = initial_state;
  paging = record {
    loading_older = true;
    loading_newer = false;
    history_complete = [];
    viewing_history = [];
  };
}

turn-Holds_example :
    Holds initial_state
      (turn empty_pane (older_ends 7 (some (hello ∷ late ∷ [])))).state
      (hello ∷ late ∷ [])
      7
unfolding IdMap.get
turn-Holds_example =
    turn-Holds empty_pane (older_ends 7 (some (hello ∷ late ∷ []))) 7 (λ d. tt)
      (((λ e. absurd (omega (arith, e))), tt), (tt, tt))

-- A comment segment and the start of the scan.
abbrev commented_image : List ℕ
commented_image = 255 ∷ 216 ∷ 255 ∷ 254 ∷ 0 ∷ 3 ∷ 65 ∷ 255 ∷ 218 ∷ 0 ∷ []

strip_jpeg_lem_example :
    (strip_jpeg (strip_jpeg commented_image) ≡ strip_jpeg commented_image)
    × SameImage (scan_file (strip_jpeg commented_image)) (scan_file commented_image)
strip_jpeg_lem_example = strip_jpeg_lem commented_image (omega arith) (ground arith)

comment_goes : strip_jpeg commented_image ≡ 255 ∷ 216 ∷ 255 ∷ 218 ∷ 0 ∷ []
unfolding strip_jpeg
comment_goes = refl

-- A server with hits from the hundredth down.
down_from : ℕ → ℕ → List Hit
down_from n zero = []
down_from n (suc m) = record { id = n; channel_id = 7 } ∷ down_from (n - 1) m

down_from_positive : (n m : ℕ) → m ≤ n → All (λ (h : Hit). 0 < h.id) (down_from n m)
unfolding down_from
down_from_positive n zero l = tt
down_from_positive n (suc m) l = (omega (arith, l), down_from_positive (n - 1) m (omega (arith, l)))

hundred : List ℕ → Option ℕ → List Hit
unfolding down_from
hundred q none = down_from 100 25
hundred q (some b) = down_from (b - 1) (min 25 (b - 1))

hundred-ArePositive : ArePositive hundred
unfolding hundred
hundred-ArePositive q none = down_from_positive 100 25 (omega arith)
hundred-ArePositive q (some b) = down_from_positive (b - 1) (min 25 (b - 1)) (omega arith)

abbrev two_pages : List rivendell.Search.Step
two_pages = run (97 ∷ []) ∷ run (98 ∷ []) ∷ answered 1 ∷ answered 0 ∷ []

run_steps-first_pages_example :
    let s = (run_steps hundred two_pages start_system).search in
    (n : ℕ) × (s.list ≡ map found (first_pages (hundred s.query) n).0)
    × (some s.cursor ≡ (first_pages (hundred s.query) n).1)
unfolding run_steps hundred down_from
run_steps-first_pages_example =
    run_steps-first_pages hundred two_pages hundred-ArePositive (tt, (tt, (tt, (tt, tt)))) refl
