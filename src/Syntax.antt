-- ===== src/Syntax.antt =====
-- web/static/syntax.js: the highlighter of code blocks.
pub mod Tables
pub mod Words
pub mod Rules
pub mod Fidelity
use text.Mathlib.Text.{◌==◌ as str_eq}
use rivendell.Base.{
  ℕ, zero, suc, ◌+◌, ◌-◌, ◌*◌, ◌/◌, ◌%◌, ◌^◌, ◌≤◌, ◌<◌, min, max, String, ◌≡◌, refl, sym, ap, ap₂,
  subst, subst₂, ◌∙◌, ◌≢◌, ◌↔◌, ◌⊎◌, inl, inr, Bool, true, false, not, ◌&&◌, ◌||◌, Option, none,
  some, List, [], ◌∷◌, ◌++◌, map, arith, ltb, leb, ◌==◌, if◌then◌else◌, ltb→lt, leb→le, ==_iff,
  ==_refl, Bool-cases, get_or, or_else, is_some, Option-cases, same_id, same_id_refl, matches_id,
  length, get_elem?, filter, any, find, All, length-append, contains, append_nil, append_assoc,
}
use rivendell.Format.Mentions.{codes}
use rivendell.Regex.{Text, Place, Re, alt, seq, exec, matched}
use rivendell.Regex.Classes.{lit, choice}
use rivendell.Html.{Mark, hl_cm, hl_hunk, hl_ins, hl_del, escape_html, sp, starts_with}
use rivendell.Syntax.Rules.{Rule, Style, mark_of, rules_for, diff_meta}

-- What a rule puts out for the text that it matched.
unfoldable pub emit : Style → Text → Text
unfolding mark_of escape_html sp
emit style m = elim (mark_of style m) [ some mark ↦ sp mark m | none ↦ escape_html m ]

unfoldable pub first_match : List Rule → Place → Option (Style × Place)
unfolding exec
first_match [] p = none
first_match (r ∷ rs) p = elim (exec r.re p) [ some q ↦ some (r.style, q) | none ↦ first_match rs p ]

abbrev pub prepend : Text → Option Text → Option Text
prepend s none = none
prepend s (some t) = some (s ++ t)

-- None if the rounds do not suffice.
unfoldable pub tokenize : ℕ → List Rule → Place → Option Text
unfolding first_match emit escape_html
tokenize rounds rules (b, []) = some []
tokenize zero rules (b, c ∷ cs) = none
tokenize (suc rounds) rules (b, c ∷ cs) = elim (first_match rules (b, c ∷ cs)) [
  | none ↦ prepend (escape_html (c ∷ [])) (tokenize rounds rules (some c, cs))
  | some (style, q) ↦ prepend (emit style (matched (b, c ∷ cs) q)) (tokenize rounds rules q)
]

-- `split("\n")`
abbrev pub add_unit : ℕ → List Text → List Text
add_unit c [] = (c ∷ []) ∷ []
add_unit c (l ∷ ls) = (c ∷ l) ∷ ls

unfoldable pub split_lines : Text → List Text
split_lines [] = [] ∷ []
split_lines (c ∷ cs) = let rest = split_lines cs in if c == 10 then [] ∷ rest else add_unit c rest

-- `join` with one separator.
unfoldable pub join_with : Text → List Text → Text
join_with sep [] = []
join_with sep (l ∷ []) = l
join_with sep (l ∷ m ∷ ls) = l ++ (sep ++ join_with sep (m ∷ ls))

unfoldable pub diff_mark : Text → Option Mark
unfolding exec
diff_mark line =
    if is_some (exec diff_meta (none, line))
    then some hl_cm
    else if starts_with (codes "@@") line
    then some hl_hunk
    else if starts_with (codes "+") line
    then some hl_ins
    else if starts_with (codes "-") line
    then some hl_del
    else none

unfoldable pub diff_line : Text → Text
unfolding diff_mark sp escape_html
diff_line line = elim (diff_mark line) [ some mark ↦ sp mark line | none ↦ escape_html line ]

unfoldable pub diff_highlight : Text → Text
unfolding split_lines join_with diff_line
diff_highlight code = join_with (10 ∷ []) (map diff_line (split_lines code))

abbrev pub is_nil : Text → Bool
is_nil [] = true
is_nil (c ∷ cs) = false

-- No language is the empty one.
unfoldable pub highlight : Text → String → Option Text
unfolding escape_html diff_highlight tokenize rules_for
highlight code lang =
    if is_nil code || str_eq lang ""
    then some (escape_html code)
    else if str_eq lang "diff" || str_eq lang "patch"
    then some (diff_highlight code)
    else elim (rules_for lang) [
      | none ↦ some (escape_html code)
      | some rules ↦ tokenize (length code) rules (none, code)
    ]
