-- ===== src/Syntax/Rules.antt =====
-- web/static/syntax.js: the rules of the languages, in the order in which they are tried.
use text.Mathlib.Text.{◌==◌ as str_eq}
use rivendell.Base.{
  ℕ, String, Bool, true, false, not, ◌&&◌, ◌||◌, Option, none, some, List, [], ◌∷◌, map, ◌==◌,
  if◌then◌else◌, contains,
}
use rivendell.Format.Mentions.{codes}
use rivendell.Regex.{Text, Re, one, seq, alt, star, lazy, ahead}
use rivendell.Regex.Classes.{
  digit, letter, word, hex, space, dot, any_unit, among, but, also, unit, lit, plus, opt, upto,
  choice, boundary, same_text, upper,
}
use rivendell.Html.{Mark, hl_kw, hl_bi, hl_fn, hl_cm, hl_str, hl_num}
use rivendell.Syntax.Words.{
  js_kw, js_bi, py_kw, py_bi, go_kw, go_bi, rust_kw, rust_bi, java_kw, java_bi, c_kw, c_bi, ruby_kw,
  ruby_bi, perl_kw, perl_bi, sql_kw, sh_kw, css_kw, css_units,
}

-- `cls`, or one of the three forms of `fn`.
pub data Style : Type 0 where
  cls : Mark → Style
  ident : List String → List String → Bool → Style
  keyword upper_keyword : List String → Style

pub record Rule : Type 0 where
  pub re : Re
  pub style : Style

abbrev pub rule : Re → Mark → Rule
rule re mark = record { re = re; style = cls mark }

abbrev pub has : List String → Text → Bool
has [] m = false
has (w ∷ ws) m = same_text (codes w) m || has ws m

-- The class of a span around the matched text, if there is to be one.
unfoldable pub mark_of : Style → Text → Option Mark
mark_of (cls mark) m = some mark
mark_of (ident kw bi fn_call) m =
    if has kw m
    then some hl_kw
    else if has bi m
    then some hl_bi
    else if fn_call
    then some hl_fn
    else none
mark_of (keyword kw) m = if has kw m then some hl_kw else none
mark_of (upper_keyword kw) m = if has kw (map upper m) then some hl_kw else none

-- `[ \t]`
abbrev blank : ℕ → Bool
blank c = c == 32 || c == 9

-- `(?=[ \t]*\()`
abbrev before_paren : Re
before_paren = ahead (seq (star (one blank)) (lit "("))

-- `[a-zA-Z_$][a-zA-Z0-9_$]*`
abbrev identifier : Re
identifier = seq (one (also letter "_$")) (star (one (also word "$")))

-- `[a-zA-Z_][a-zA-Z0-9_]*`
abbrev name : Re
name = seq (one (also letter "_")) (star (one word))

unfoldable pub id_rule : List String → List String → Bool → Rule
id_rule kw bi fn_call = record {
  re = if fn_call then seq identifier before_paren else identifier;
  style = ident kw bi fn_call;
}

-- `q(?:[^q\\]|\\.)*q`
abbrev quoted : String → Re
quoted q =
    seq (lit q)
      (seq (star (alt (one (λ c. but q c && not (c == 92))) (seq (unit 92) (one dot)))) (lit q))

-- From one delimiter to the next other one: `a[\s\S]*?b`
abbrev enclosed : String → String → Re
enclosed a b = seq (lit a) (seq (lazy (one any_unit)) (lit b))

-- `a[^c]*b`
abbrev until : String → String → String → Re
until a c b = seq (lit a) (seq (star (one (but c))) (lit b))

abbrev to_line_end : String → Re
to_line_end a = seq (lit a) (star (one (λ c. not (c == 10))))

-- `0[xXbBoO][0-9a-fA-F_]+`
abbrev hex_number : Re
hex_number = seq (lit "0") (seq (one (among "xXbBoO")) (plus (one (also hex "_"))))

-- `\d+(?:\.\d+)?`
abbrev fraction : Re
fraction = seq (plus (one digit)) (opt (seq (lit ".") (plus (one digit))))

-- `(?:[eE][+-]?\d+)?`
abbrev exponent : String → Re
exponent e = opt (seq (one (among e)) (seq (opt (one (among "+-"))) (plus (one digit))))

unfoldable pub clike_rules : List String → List String → List Rule
unfolding id_rule
clike_rules kw bi =
    rule (to_line_end "//") hl_cm
    ∷ rule (enclosed "/*" "*/") hl_cm
    ∷ rule (quoted "\"") hl_str
    ∷ rule (quoted "'") hl_str
    ∷ rule (quoted "`") hl_str
    ∷ rule (seq hex_number (star (one (among "lLuU")))) hl_num
    ∷ rule (seq fraction (seq (exponent "eE") (star (one (among "fFdDlLuU"))))) hl_num
    ∷ id_rule kw bi true
    ∷ id_rule kw bi false
    ∷ []

unfoldable pub py_rules : List Rule
unfolding id_rule
py_rules =
    rule (to_line_end "#") hl_cm
    ∷ rule (seq (opt (lit "r")) (enclosed "\"\"\"" "\"\"\"")) hl_str
    ∷ rule (seq (opt (lit "r")) (enclosed "'''" "'''")) hl_str
    ∷ rule (seq (upto 2 (one (among "fFrRbBuU"))) (quoted "\"")) hl_str
    ∷ rule (seq (upto 2 (one (among "fFrRbBuU"))) (quoted "'")) hl_str
    ∷ rule hex_number hl_num
    ∷ rule (seq fraction (exponent "eEjJ")) hl_num
    ∷ id_rule py_kw py_bi true
    ∷ id_rule py_kw py_bi false
    ∷ []

unfoldable pub sql_rules : List Rule
sql_rules =
    rule (to_line_end "--") hl_cm
    ∷ rule (enclosed "/*" "*/") hl_cm
    ∷ rule (quoted "'") hl_str
    ∷ rule (quoted "\"") hl_str
    ∷ rule (enclosed "$$" "$$") hl_str
    ∷ rule (seq boundary (seq fraction boundary)) hl_num
    ∷ record { re = name; style = upper_keyword sql_kw }
    ∷ []

unfoldable pub css_rules : List Rule
css_rules =
    rule (enclosed "/*" "*/") hl_cm
    ∷ rule (quoted "\"") hl_str
    ∷ rule (quoted "'") hl_str
    ∷ rule (seq (opt (lit "-")) (seq fraction (opt (choice css_units)))) hl_num
    ∷ rule
        (seq (lit "#")
          (seq (one hex) (seq (one hex) (seq (one hex) (seq (upto 5 (one hex)) boundary)))))
        hl_num
    ∷ rule (seq (lit "@") (plus (one (also letter "-")))) hl_kw
    ∷ rule (seq (plus (one (also letter "-"))) (ahead (seq (star (one space)) (lit ":")))) hl_bi
    ∷ rule (seq boundary (seq (choice css_kw) boundary)) hl_kw
    ∷ []

-- A letter of either case.
abbrev either_case : String → Re
either_case s = one (λ c. contains (codes s) c)

abbrev doctype : Re
doctype = seq (either_case "dD") (
    seq (either_case "oO") (
      seq (either_case "cC") (
        seq (either_case "tT")
          (seq (either_case "yY") (seq (either_case "pP") (either_case "eE"))))))

unfoldable pub html_rules : List Rule
html_rules =
    rule (enclosed "<!--" "-->") hl_cm
    ∷ rule
        (seq (lit "<!")
          (seq (star (one space)) (seq doctype (seq (star (one (but ">"))) (lit ">")))))
        hl_cm
    ∷ rule
        (seq (lit "</") (
          seq (one letter) (seq (star (one (λ c. letter c || digit c || among "-:" c))) (lit ">"))))
        hl_kw
    ∷ rule
        (seq (lit "<") (seq (one letter) (star (one (λ c. letter c || digit c || among "-:." c)))))
        hl_kw
    ∷ rule (alt (seq (opt (lit "/")) (lit ">")) (lit ">")) hl_kw
    ∷ rule
        (seq (one (also letter "_:"))
          (seq (star (one (also word ".:-"))) (ahead (seq (star (one space)) (lit "=")))))
        hl_bi
    ∷ rule (until "\"" "\"" "\"") hl_str
    ∷ rule (until "'" "'" "'") hl_str
    ∷ rule (seq (lit "&") (seq (plus (one (λ c. letter c || digit c || c == 35))) (lit ";"))) hl_num
    ∷ []

unfoldable pub sh_rules : List Rule
sh_rules =
    rule (to_line_end "#") hl_cm
    ∷ rule (quoted "\"") hl_str
    ∷ rule (until "'" "'" "'") hl_str
    ∷ rule (until "${" "}" "}") hl_bi
    ∷ rule (seq (lit "$") name) hl_bi
    ∷ rule (seq (lit "$") (one (also digit "@#*?$!-"))) hl_bi
    ∷ rule (plus (one digit)) hl_num
    ∷ rule (seq name before_paren) hl_fn
    ∷ record {
      re = seq (one (also letter "_")) (star (one (also word "-")));
      style = keyword sh_kw;
    }
    ∷ []

-- `a(?:[^c\\]|\\.)*b`
abbrev escaped_until : String → String → String → Re
escaped_until a c b =
    seq (lit a)
      (seq (star (alt (one (λ x. but c x && not (x == 92))) (seq (unit 92) (one dot)))) (lit b))

unfoldable pub perl_rules : List Rule
unfolding id_rule
perl_rules =
    rule (to_line_end "#") hl_cm
    ∷ rule (escaped_until "qq{" "{}" "}") hl_str
    ∷ rule (escaped_until "qq[" "]" "]") hl_str
    ∷ rule (escaped_until "qq(" "()" ")") hl_str
    ∷ rule (escaped_until "qq/" "/" "/") hl_str
    ∷ rule (until "qw{" "{}" "}") hl_str
    ∷ rule (until "qw[" "]" "]") hl_str
    ∷ rule (until "qw(" ")" ")") hl_str
    ∷ rule (until "q{" "{}" "}") hl_str
    ∷ rule (until "q[" "]" "]") hl_str
    ∷ rule (until "q(" ")" ")") hl_str
    ∷ rule (quoted "\"") hl_str
    ∷ rule (quoted "'") hl_str
    ∷ rule hex_number hl_num
    ∷ rule (seq fraction (exponent "eE")) hl_num
    ∷ rule (until "${" "}" "}") hl_bi
    ∷ rule (seq (lit "$") name) hl_bi
    ∷ rule (seq (lit "$") (one (also digit "!@#$%&*-+=|?"))) hl_bi
    ∷ rule (seq (lit "@") name) hl_bi
    ∷ rule (seq (lit "%") name) hl_bi
    ∷ id_rule perl_kw perl_bi true
    ∷ id_rule perl_kw perl_bi false
    ∷ []

unfoldable pub json_rules : List Rule
json_rules =
    rule (seq (quoted "\"") (ahead (seq (star (one space)) (lit ":")))) hl_bi
    ∷ rule (quoted "\"") hl_str
    ∷ rule (seq boundary (seq (choice ("true" ∷ "false" ∷ "null" ∷ [])) boundary)) hl_kw
    ∷ rule (seq (opt (lit "-")) (seq fraction (exponent "eE"))) hl_num
    ∷ []

-- DIFF_META_RE at the start of a line.
unfoldable pub diff_meta : Re
diff_meta = choice (
    "diff " ∷ "index " ∷ "--- " ∷ "+++ " ∷ "old mode" ∷ "new mode" ∷ "new file" ∷ "deleted file"
    ∷ "rename " ∷ "copy " ∷ "similarity " ∷ "dissimilarity " ∷ "Binary files" ∷ [])

abbrev one_of : List String → String → Bool
one_of [] lang = false
one_of (l ∷ ls) lang = str_eq lang l || one_of ls lang

-- `buildRules`; the cache of `getRules` keeps its results.
unfoldable pub rules_for : String → Option (List Rule)
unfolding clike_rules py_rules sql_rules css_rules html_rules sh_rules perl_rules json_rules
rules_for lang =
    if one_of ("js" ∷ "javascript" ∷ "jsx" ∷ "ts" ∷ "typescript" ∷ "tsx" ∷ []) lang
    then some (clike_rules js_kw js_bi)
    else if one_of ("py" ∷ "python" ∷ []) lang
    then some py_rules
    else if one_of ("go" ∷ []) lang
    then some (clike_rules go_kw go_bi)
    else if one_of ("rs" ∷ "rust" ∷ []) lang
    then some (clike_rules rust_kw rust_bi)
    else if one_of ("java" ∷ []) lang
    then some (clike_rules java_kw java_bi)
    else if one_of ("c" ∷ "cpp" ∷ "c++" ∷ "cc" ∷ "cxx" ∷ []) lang
    then some (clike_rules c_kw c_bi)
    else if one_of ("rb" ∷ "ruby" ∷ []) lang
    then some (clike_rules ruby_kw ruby_bi)
    else if one_of ("json" ∷ []) lang
    then some json_rules
    else if one_of ("css" ∷ "scss" ∷ "less" ∷ []) lang
    then some css_rules
    else if one_of ("html" ∷ "xml" ∷ "svg" ∷ []) lang
    then some html_rules
    else if one_of ("sh" ∷ "bash" ∷ "shell" ∷ "zsh" ∷ "fish" ∷ []) lang
    then some sh_rules
    else if one_of ("pl" ∷ "perl" ∷ "pm" ∷ []) lang
    then some perl_rules
    else if one_of ("sql" ∷ "psql" ∷ "pgsql" ∷ []) lang
    then some sql_rules
    else none
