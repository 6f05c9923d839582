-- ===== src/Regex.antt =====
-- The regular expressions that the source uses, matched by backtracking as the language does: the
-- first alternative first, a greedy repetition as often as it can, a lazy one as seldom. Texts are
-- code units. A repetition that takes nothing ends.
pub mod Classes
pub mod Consuming
use rivendell.Base.{
  ℕ, zero, suc, ◌+◌, ◌-◌, ◌*◌, ◌/◌, ◌%◌, ◌^◌, ◌≤◌, ◌<◌, min, max, String, ◌≡◌, refl, sym, ap, ap₂,
  subst, subst₂, ◌∙◌, ◌≢◌, ◌↔◌, ◌⊎◌, inl, inr, Bool, true, false, not, ◌&&◌, ◌||◌, Option, none,
  some, List, [], ◌∷◌, ◌++◌, map, arith, ltb, leb, ◌==◌, if◌then◌else◌, ltb→lt, leb→le, ==_iff,
  ==_refl, Bool-cases, get_or, or_else, is_some, Option-cases, same_id, same_id_refl, matches_id,
  length, get_elem?, filter, any, find, All, length-append, contains, append_nil, append_assoc,
}

abbrev pub Text : Type 0
Text = List ℕ

-- A place in a text: the code unit before it, if there is one, and what follows.
abbrev pub Place : Type 0
Place = Option ℕ × Text

pub data Re : Type 0 where
  -- Nothing; a code unit of a class.
  empty : Re
  one : (ℕ → Bool) → Re
  seq alt : Re → Re → Re
  -- `r*` and `r*?`
  star lazy : Re → Re
  -- `(?=r)`, and `\b` for a class of word characters
  ahead : Re → Re
  edge : (ℕ → Bool) → Re

abbrev pub Step : Type 0
Step = Place → (Place → Option Place) → Option Place

abbrev pub orelse : Option Place → Option Place → Option Place
orelse none q = q
orelse (some p) q = some p

abbrev pub is_shorter : Place → Place → Bool
is_shorter q p = ltb (length q.1) (length p.1)

abbrev pub test_at : (ℕ → Bool) → Option ℕ → Bool
test_at f none = false
test_at f (some c) = f c

abbrev pub first : Text → Option ℕ
first [] = none
first (c ∷ cs) = some c

abbrev pub differ : Bool → Bool → Bool
differ true b = not b
differ false b = b

abbrev pub at_edge : (ℕ → Bool) → Place → Bool
at_edge f p = differ (test_at f p.0) (test_at f (first p.1))

-- `more` rounds at most.
unfoldable pub star_loop : Step → ℕ → Step
star_loop m zero p k = k p
star_loop m (suc more) p k =
    orelse (m p (λ q. if is_shorter q p then star_loop m more q k else none)) (k p)

unfoldable pub lazy_loop : Step → ℕ → Step
lazy_loop m zero p k = k p
lazy_loop m (suc more) p k =
    orelse (k p) (m p (λ q. if is_shorter q p then lazy_loop m more q k else none))

abbrev pub take_one : (ℕ → Bool) → Step
take_one f (b, []) k = none
take_one f (b, c ∷ cs) k = if f c then k (some c, cs) else none

unfoldable pub run : Re → Step
unfolding star_loop lazy_loop
run empty p k = k p
run (one f) p k = take_one f p k
run (seq r s) p k = run r p (λ q. run s q k)
run (alt r s) p k = elim (run r p k) [ some q ↦ some q | none ↦ run s p k ]
run (star r) p k = star_loop (run r) (length p.1) p k
run (lazy r) p k = lazy_loop (run r) (length p.1) p k
run (ahead r) p k = elim (run r p (λ q. some q)) [ some q ↦ k p | none ↦ none ]
run (edge f) p k = if at_edge f p then k p else none

-- `re.exec(code)` of a sticky expression: where the match ends.
unfoldable pub exec : Re → Place → Option Place
unfolding run
exec r p = run r p (λ q. some q)

-- The first `n` code units.
abbrev pub prefix : ℕ → Text → Text
prefix zero s = []
prefix (suc n) [] = []
prefix (suc n) (c ∷ cs) = c ∷ prefix n cs

-- `m[0]`
abbrev pub matched : Place → Place → Text
matched p q = prefix (length p.1 - length q.1) p.1
