-- ===== src/Search/Listing.antt =====
-- What is listed while the button for more shows.
use rivendell.Base.{
  ℕ, zero, suc, ◌+◌, ◌<◌, ◌≡◌, refl, sym, subst, inl, inr, true, false, Option, some, List, [], ◌∷◌,
  map, arith, Option-cases, get_elem?,
}
use rivendell.Regex.{Text}
use rivendell.Search.{
  Hit, found, Search, Request, System, Step, run, more, answered, failed, begin_run, end_run,
  fail_run, step, begun, ended, without, before_cursor, start_system,
}
use rivendell.Search.Pages.{
  first_pages, Shows, IsLatest, Falls, IsShown, IsValid, Falls-Older, none-IsLatest, ArePositive,
  Falls-le,
}
use rivendell.Search.Answers.{end_run-IsValid, fail_run-IsValid, hidden_IsShown}

before_positive : (n : ℕ) → 0 < n → before_cursor n ≡ some n
before_positive zero l = absurd (omega (arith, l))
before_positive (suc n) l = refl

-- A run that clears the list.
cleared-IsValid :
    (page : Text → Option ℕ → List Hit) (s t : Search) (rs : List Request)
    → IsValid page (record { search = s; pending = rs })
    → t.seq ≡ s.seq + 1
    → t.more_hidden ≡ true
    → IsValid page (record { search = t; pending = rs })
cleared-IsValid page s t rs v e h = record {
  falls = Falls-le (suc s.seq) (suc t.seq) rs (omega (arith, e)) v.falls;
  latest =
      none-IsLatest page t (suc s.seq) rs
        (Falls-Older (suc s.seq) (suc s.seq) rs (omega arith) v.falls) (omega (arith, e));
  shown = hidden_IsShown page t h;
}

-- A run that asks for a page.
asked-IsValid :
    (page : Text → Option ℕ → List Hit) (s t : Search) (r : Request) (rs : List Request)
    → IsValid page (record { search = s; pending = rs })
    → t.seq ≡ s.seq + 1
    → r.my_seq ≡ s.seq + 1
    → t.more_hidden ≡ true
    → IsLatest page t r
    → IsValid page (record { search = t; pending = r ∷ rs })
unfolding Falls
asked-IsValid page s t r rs v e m h l =
    let c = cleared-IsValid page s t rs v e h in
    record {
      falls = (omega (arith, e, m), Falls-le (suc s.seq) r.my_seq rs (omega (arith, m)) v.falls);
      latest = ((λ q. l), c.latest);
      shown = c.shown;
    }

run-IsValid :
    (page : Text → Option ℕ → List Hit) (q : Text) (s : Search) (rs : List Request)
    → IsValid page (record { search = s; pending = rs })
    → IsValid page (begun (begin_run true q s) rs)
unfolding begin_run IsLatest
run-IsValid page [] s rs v = cleared-IsValid page s _ rs v refl refl
run-IsValid page (c ∷ cs) s rs v = asked-IsValid page s _ _ rs v refl refl refl (refl, refl, refl)

next-Shows :
    (page : Text → Option ℕ → List Hit) (s : Search)
    → s.more_hidden ≡ false
    → IsShown page s
    → Shows page s.query s.list (before_cursor s.cursor)
unfolding IsShown
next-Shows page s h v =
    let w = v h in subst (Shows page s.query s.list) (sym (before_positive s.cursor w.1)) w.0

more-IsValid :
    (page : Text → Option ℕ → List Hit) (q : Text) (s : Search) (rs : List Request)
    → q ≡ s.query
    → s.more_hidden ≡ false
    → IsValid page (record { search = s; pending = rs })
    → IsValid page (begun (begin_run false q s) rs)
unfolding begin_run IsLatest
more-IsValid page [] s rs e h v = cleared-IsValid page s _ rs v refl refl
more-IsValid page (c ∷ cs) s rs e h v =
    asked-IsValid page s _ _ rs v refl refl refl (e, refl, next-Shows page s h v.shown)

-- The button for more is pressed only while it shows, and with the input as it was when its query began.
abbrev pub IsApt : Step → System → Type 0
IsApt (more q) y = (q ≡ y.search.query) × (y.search.more_hidden ≡ false)
IsApt _ y = Unit

ended_cases :
    (f : Request → Search → Search) (i : ℕ) (y : System) (P : System → Type 0)
    → P y
    → ((r : Request)
        → get_elem? y.pending i ≡ some r
        → P (record { search = f r y.search; pending = without i y.pending }))
    → P (ended f i y)
ended_cases f i y P none_case some_case = elim (Option-cases (get_elem? y.pending i)) [
  | inl e ↦ let same : ended f i y ≡ y = rw (ended, e) in subst P (sym same) none_case
  | inr e ↦
      let same : ended f i y ≡ record { search = f e.0 y.search; pending = without i y.pending } =
        rw (ended, e.1) in
      subst P (sym same) (some_case e.0 e.1)
]

step-IsValid :
    (page : Text → Option ℕ → List Hit) (x : Step) (y : System)
    → ArePositive page
    → IsApt x y
    → IsValid page y
    → IsValid page (step page x y)
unfolding step
step-IsValid page (run q) y pos a v = run-IsValid page q y.search y.pending v
step-IsValid page (more q) y pos a v = more-IsValid page q y.search y.pending a.0 a.1 v
step-IsValid page (answered i) y pos a v =
    ended_cases (λ r. end_run r (page r.q r.before)) i y (IsValid page) v
      (λ r g. end_run-IsValid page y.search y.pending i r pos v g)
step-IsValid page (failed i) y pos a v =
    ended_cases fail_run i y (IsValid page) v
      (λ r g. fail_run-IsValid page y.search y.pending i r v g)

unfoldable pub run_steps : (Text → Option ℕ → List Hit) → List Step → System → System
unfolding step
run_steps page [] y = y
run_steps page (x ∷ xs) y = run_steps page xs (step page x y)

abbrev pub AreApt : (Text → Option ℕ → List Hit) → List Step → System → Type 0
unfolding step
AreApt page [] y = Unit
AreApt page (x ∷ xs) y = IsApt x y × AreApt page xs (step page x y)

run_steps-IsValid :
    (page : Text → Option ℕ → List Hit) (xs : List Step) (y : System)
    → ArePositive page
    → AreApt page xs y
    → IsValid page y
    → IsValid page (run_steps page xs y)
unfolding run_steps AreApt
run_steps-IsValid page [] y pos a v = v
run_steps-IsValid page (x ∷ xs) y pos a v =
    run_steps-IsValid page xs (step page x y) pos a.1 (step-IsValid page x y pos a.0 v)

start-IsValid : (page : Text → Option ℕ → List Hit) → IsValid page start_system
unfolding Falls
start-IsValid page = record {
  falls = tt;
  latest = tt;
  shown = hidden_IsShown page start_system.search refl;
}

-- Through any runs and presses of the button for more, with requests that end in any order, of which any may fail. The server's ids are positive, and the button is pressed only while it shows and with the text of its query in the input. Whenever the button shows, the list is made of the first pages of the query of the latest run, in order and each once, and the cursor is where the next one starts.
pub run_steps-first_pages :
    (page : Text → Option ℕ → List Hit) (xs : List Step)
    → ArePositive page
    → AreApt page xs start_system
    → (run_steps page xs start_system).search.more_hidden ≡ false
    → let s = (run_steps page xs start_system).search in
      (n : ℕ) × (s.list ≡ map found (first_pages (page s.query) n).0)
      × (some s.cursor ≡ (first_pages (page s.query) n).1)
unfolding IsShown
run_steps-first_pages page xs pos a h =
    let v = run_steps-IsValid page xs start_system pos a (start-IsValid page) in
    let w = v.shown h in (w.0.n, w.0.listed, w.0.next)
