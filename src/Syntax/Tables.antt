-- ===== src/Syntax/Tables.antt =====
-- Every rule of every language takes something.
use rivendell.Base.{
  ◌≤◌, String, ◌≡◌, refl, subst, Bool, true, false, ◌&&◌, Option, none, some, List, [], ◌∷◌, arith,
  ltb, if◌then◌else◌,
}
use rivendell.Regex.Consuming.{needs}
use rivendell.Syntax.Rules.{
  Rule, id_rule, rules_for, clike_rules, py_rules, sql_rules, css_rules, html_rules, sh_rules,
  perl_rules, json_rules,
}

abbrev pub AllTake : List Rule → Type 0
AllTake [] = Unit
AllTake (r ∷ rs) = (1 ≤ needs r.re) × AllTake rs

all_take : List Rule → Bool
all_take [] = true
all_take (r ∷ rs) = ltb 0 (needs r.re) && all_take rs

all_take-AllTake : (rs : List Rule) → all_take rs ≡ true → AllTake rs
unfolding all_take
all_take-AllTake [] h = tt
all_take-AllTake (r ∷ rs) h = (ground (arith, h), all_take-AllTake rs (ground (arith, h)))

clike_rules-AllTake : (kw bi : List String) → AllTake (clike_rules kw bi)
unfolding all_take clike_rules id_rule
clike_rules-AllTake kw bi = all_take-AllTake (clike_rules kw bi) refl

py_rules-AllTake : AllTake py_rules
unfolding all_take py_rules id_rule
py_rules-AllTake = all_take-AllTake py_rules refl

sql_rules-AllTake : AllTake sql_rules
unfolding all_take sql_rules
sql_rules-AllTake = all_take-AllTake sql_rules refl

css_rules-AllTake : AllTake css_rules
unfolding all_take css_rules
css_rules-AllTake = all_take-AllTake css_rules refl

html_rules-AllTake : AllTake html_rules
unfolding all_take html_rules
html_rules-AllTake = all_take-AllTake html_rules refl

sh_rules-AllTake : AllTake sh_rules
unfolding all_take sh_rules
sh_rules-AllTake = all_take-AllTake sh_rules refl

perl_rules-AllTake : AllTake perl_rules
unfolding all_take perl_rules id_rule
perl_rules-AllTake = all_take-AllTake perl_rules refl

json_rules-AllTake : AllTake json_rules
unfolding all_take json_rules
json_rules-AllTake = all_take-AllTake json_rules refl

-- One more language in front of the others.
OptTake : Option (List Rule) → Type 0
OptTake none = Unit
OptTake (some rules) = AllTake rules

case_OptTake :
    (b : Bool) (rules : List Rule) (rest : Option (List Rule))
    → AllTake rules
    → OptTake rest
    → OptTake (if b then some rules else rest)
unfolding OptTake
case_OptTake true rules rest a o = a
case_OptTake false rules rest a o = o

none-OptTake : OptTake none
unfolding OptTake
none-OptTake = tt

rules_for-OptTake : (lang : String) → OptTake (rules_for lang)
unfolding rules_for
rules_for-OptTake lang =
    search
      (
        case_OptTake, none-OptTake, clike_rules-AllTake, py_rules-AllTake, sql_rules-AllTake,
        css_rules-AllTake, html_rules-AllTake, sh_rules-AllTake, perl_rules-AllTake,
        json_rules-AllTake,
      )
      depth 20

pub rules_for-AllTake :
    (lang : String) (rules : List Rule) → rules_for lang ≡ some rules → AllTake rules
unfolding OptTake
rules_for-AllTake lang rules h = subst OptTake h (rules_for-OptTake lang)
