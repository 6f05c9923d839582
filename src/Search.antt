-- ===== src/Search.antt =====
-- web/static/search.js: createSearch, whose requests overlap. A request is two steps: `begin_run` up
-- to the call of the server, and `end_run` or `fail_run` once everything that it waits for has come.
-- (The check of the number before the channels are fetched changes nothing.) The text is the
-- trimmed one of the input; the timer of `onInput` only decides when a run begins.
pub mod Listing
pub mod Answers
pub mod Pages
use rivendell.Base.{
  ℕ, zero, suc, ◌+◌, ◌-◌, ◌*◌, ◌/◌, ◌%◌, ◌^◌, ◌≤◌, ◌<◌, min, max, String, ◌≡◌, refl, sym, ap, ap₂,
  subst, subst₂, ◌∙◌, ◌≢◌, ◌↔◌, ◌⊎◌, inl, inr, Bool, true, false, not, ◌&&◌, ◌||◌, Option, none,
  some, List, [], ◌∷◌, ◌++◌, map, arith, ltb, leb, ◌==◌, if◌then◌else◌, ltb→lt, leb→le, ==_iff,
  ==_refl, Bool-cases, get_or, or_else, is_some, Option-cases, same_id, same_id_refl, matches_id,
  length, get_elem?, filter, any, find, All, length-append, contains, append_nil, append_assoc,
}
use rivendell.Regex.{Text}

abbrev pub search_page : ℕ
search_page = 25

pub record Hit : Type 0 where
  pub id : ℕ
  pub channel_id : ℕ

pub data Row : Type 0 where
  found : Hit → Row
  no_messages failure : Row

pub record Search : Type 0 where
  pub seq : ℕ
  pub query : Text
  pub cursor : ℕ
  pub list : List Row
  pub more_hidden : Bool

pub record Request : Type 0 where
  pub q : Text
  pub before : Option ℕ
  pub reset : Bool
  pub my_seq : ℕ

abbrev pub start_search : Search
start_search = record { seq = 0; query = []; cursor = 0; list = []; more_hidden = true }

abbrev pub if_new : Bool → Text → Search → Search
if_new reset q s = if reset then record s { query = q; cursor = 0 } else s

-- `cursor || undefined`
abbrev pub before_cursor : ℕ → Option ℕ
before_cursor zero = none
before_cursor (suc n) = some (suc n)

unfoldable pub begin_run : Bool → Text → Search → Search × Option Request
begin_run reset [] s =
    (record (if_new reset [] s) { seq = s.seq + 1; list = []; more_hidden = true }, none)
begin_run reset (c ∷ cs) s =
    let t = if_new reset (c ∷ cs) s in
    (
      record t { seq = s.seq + 1; more_hidden = true },
      some (record {
        q = c ∷ cs;
        before = before_cursor t.cursor;
        reset = reset;
        my_seq = s.seq + 1;
      }),
    )

abbrev pub is_none_found : List Hit → Bool
is_none_found [] = true
is_none_found (h ∷ hs) = false

-- The id of the last of them.
abbrev pub last_id : ℕ → List Hit → ℕ
last_id n [] = n
last_id n (h ∷ hs) = last_id h.id hs

abbrev pub if_full : List Hit → Search → Search
if_full results s =
    if length results == search_page
    then record s { cursor = last_id s.cursor results; more_hidden = false }
    else s

abbrev pub put_results : Bool → List Hit → Search → Search
put_results true results s =
    if is_none_found results
    then record s { list = no_messages ∷ [] }
    else if_full results (record s { list = map found results })
put_results false results s = if_full results (record s { list = s.list ++ map found results })

unfoldable pub end_run : Request → List Hit → Search → Search
end_run r results s = if r.my_seq == s.seq then put_results r.reset results s else s

unfoldable pub fail_run : Request → Search → Search
fail_run r s = if r.my_seq == s.seq then record s { list = failure ∷ [] } else s

-- The search and its requests that have not come back.
pub record System : Type 0 where
  pub search : Search
  pub pending : List Request

abbrev pub start_system : System
start_system = record { search = start_search; pending = [] }

-- A run from the input, a press of the button for more, and the end of the `i`th pending request.
pub data Step : Type 0 where
  run more : Text → Step
  answered failed : ℕ → Step

abbrev pub begun : Search × Option Request → List Request → System
begun (s, none) pending = record { search = s; pending = pending }
begun (s, some r) pending = record { search = s; pending = r ∷ pending }

abbrev pub without {ℓ} : {A : Type ℓ} → ℕ → List A → List A
without i [] = []
without zero (x ∷ xs) = xs
without (suc i) (x ∷ xs) = x ∷ without i xs

abbrev pub ended : (Request → Search → Search) → ℕ → System → System
ended f i y = elim (get_elem? y.pending i) [
  | none ↦ y
  | some r ↦ record { search = f r y.search; pending = without i y.pending }
]

-- The server answers a query and a place in it with a page.
unfoldable pub step : (Text → Option ℕ → List Hit) → Step → System → System
unfolding begin_run end_run fail_run
step page (run q) y = begun (begin_run true q y.search) y.pending
step page (more q) y = begun (begin_run false q y.search) y.pending
step page (answered i) y = ended (λ r. end_run r (page r.q r.before)) i y
step page (failed i) y = ended fail_run i y
