-- ===== src/Format/Queries.antt =====
-- web/static/format.js: atQuery, colonQuery and hashQuery, the word before the caret that is to be
-- completed. Texts are code units, and the caret is inside.
pub mod Found
use rivendell.Base.{
  ℕ, zero, suc, ◌+◌, Bool, false, not, ◌&&◌, ◌||◌, Option, none, some, ltb, ◌==◌, if◌then◌else◌,
  get_elem?,
}
use rivendell.Regex.{Text}
use rivendell.Regex.Classes.{word, small, digit}
use rivendell.Composer.Markers.{slice}

pub record Query : Type 0 where
  pub start : ℕ
  pub partial : Text

-- One more than the `i` at which the loop ends.
unfoldable pub walk : (ℕ → Bool) → Text → ℕ → ℕ
walk f text zero = 0
walk f text (suc i) =
    let rest = walk f text i in
    elim (get_elem? text i) [ none ↦ rest | some c ↦ if f c then rest else suc i ]

-- A code unit of the class stands there.
abbrev pub holds_at : (ℕ → Bool) → Text → ℕ → Bool
holds_at f text i = elim (get_elem? text i) [ none ↦ false | some c ↦ f c ]

-- A code unit of the class stands right before there.
abbrev pub follows : (ℕ → Bool) → Text → ℕ → Bool
follows f text zero = false
follows f text (suc i) = holds_at f text i

abbrev pub query_at : (ℕ → Bool) → (ℕ → Bool) → ℕ → Text → ℕ → ℕ → Option Query
query_at f before mark text pos zero = none
query_at f before mark text pos (suc i) =
    if holds_at (λ c. c == mark) text i && not (follows before text i)
    then some (record { start = i; partial = slice (suc i) pos text })
    else none

unfoldable pub find_query : (ℕ → Bool) → (ℕ → Bool) → ℕ → Text → ℕ → Option Query
unfolding walk
find_query f before mark text pos = query_at f before mark text pos (walk f text pos)

-- `[A-Za-z0-9_/]`
abbrev pub glued : ℕ → Bool
glued c = word c || c == 47

-- `[a-z0-9_]`
abbrev pub code_unit : ℕ → Bool
code_unit c = small c || digit c || c == 95

-- `[a-z0-9_-]`
abbrev pub channel_unit : ℕ → Bool
channel_unit c = code_unit c || c == 45

unfoldable pub at_query : Text → ℕ → Option Query
unfolding find_query
at_query text pos = find_query word glued 64 text pos

unfoldable pub colon_query : Text → ℕ → Option Query
unfolding find_query
colon_query text pos = find_query code_unit (λ c. glued c || c == 58) 58 text pos

-- A name starts with a letter.
abbrev pub check_first : Text → ℕ → Query → Option Query
check_first text pos q =
    if ltb (q.start + 1) pos && not (holds_at small text (q.start + 1)) then none else some q

unfoldable pub hash_query : Text → ℕ → Option Query
unfolding find_query
hash_query text pos = elim (find_query channel_unit glued 35 text pos) [
  | none ↦ none
  | some q ↦ check_first text pos q
]
