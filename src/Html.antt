-- ===== src/Html.antt =====
-- web/static/format.js, escapeHtml, and esc and sp of web/static/syntax.js: text inside HTML. What a
-- browser shows of such HTML is `text_of`: its tags taken out, its entities read.
pub mod Reading
use rivendell.Base.{
  ℕ, zero, suc, ◌+◌, ◌-◌, ◌*◌, ◌/◌, ◌%◌, ◌^◌, ◌≤◌, ◌<◌, min, max, String, ◌≡◌, refl, sym, ap, ap₂,
  subst, subst₂, ◌∙◌, ◌≢◌, ◌↔◌, ◌⊎◌, inl, inr, Bool, true, false, not, ◌&&◌, ◌||◌, Option, none,
  some, List, [], ◌∷◌, ◌++◌, map, arith, ltb, leb, ◌==◌, if◌then◌else◌, ltb→lt, leb→le, ==_iff,
  ==_refl, Bool-cases, get_or, or_else, is_some, Option-cases, same_id, same_id_refl, matches_id,
  length, get_elem?, filter, any, find, All, length-append, contains, append_nil, append_assoc,
}
use rivendell.Format.Mentions.{codes}
use rivendell.Regex.{Text}

-- `s.replace(/c/g, t)`
unfoldable pub replace_unit : ℕ → Text → Text → Text
replace_unit c t [] = []
replace_unit c t (x ∷ xs) = let rest = replace_unit c t xs in if x == c then t ++ rest else x ∷ rest

unfoldable pub escape_html : Text → Text
unfolding replace_unit
escape_html s = replace_unit 39 (codes "&#39;") (
    replace_unit 34 (codes "&quot;") (
      replace_unit 62 (codes "&gt;")
        (replace_unit 60 (codes "&lt;") (replace_unit 38 (codes "&amp;") s))))

-- The classes of the spans.
pub data Mark : Type 0 where
  hl_kw hl_bi hl_fn hl_cm hl_str hl_num hl_hunk hl_ins hl_del : Mark

abbrev pub class_name : Mark → String
class_name hl_kw = "hl-kw"
class_name hl_bi = "hl-bi"
class_name hl_fn = "hl-fn"
class_name hl_cm = "hl-cm"
class_name hl_str = "hl-str"
class_name hl_num = "hl-num"
class_name hl_hunk = "hl-hunk"
class_name hl_ins = "hl-ins"
class_name hl_del = "hl-del"

-- A span around HTML.
abbrev pub span_around : Text → Text → Text
span_around cls html = codes "<span class=\"" ++ (cls ++ (codes "\">" ++ (html ++ codes "</span>")))

unfoldable pub sp : Mark → Text → Text
unfolding escape_html
sp mark text = span_around (codes (class_name mark)) (escape_html text)

-- An entity without its `&`: what it stands for, and how long it is.
abbrev pub starts_with : Text → Text → Bool
starts_with [] s = true
starts_with (c ∷ p) [] = false
starts_with (c ∷ p) (x ∷ s) = c == x && starts_with p s

abbrev pub entity : Text → Option (ℕ × ℕ)
entity s =
    if starts_with (codes "amp;") s
    then some (38, 4)
    else if starts_with (codes "lt;") s
    then some (60, 3)
    else if starts_with (codes "gt;") s
    then some (62, 3)
    else if starts_with (codes "quot;") s
    then some (34, 5)
    else if starts_with (codes "#39;") s
    then some (39, 4)
    else none

-- `skip` code units are passed over; `in_tag` says whether a tag is open.
unfoldable pub read : ℕ → Bool → Text → Text
read skip in_tag [] = []
read (suc skip) in_tag (c ∷ cs) = read skip in_tag cs
read zero true (c ∷ cs) = read 0 (not (c == 62)) cs
read zero false (c ∷ cs) = elim (c == 60) [
  | true ↦ read 0 true cs
  | false ↦ elim (c == 38) [
    | false ↦ c ∷ read 0 false cs
    | true ↦ elim (entity cs) [ none ↦ c ∷ read 0 false cs | some e ↦ e.0 ∷ read e.1 false cs ]
  ]
]

unfoldable pub text_of : Text → Text
unfolding read
text_of html = read 0 false html
