-- ===== src/Html/Reading.antt =====
-- Escaped text is read back as it was, and tags as nothing.
use rivendell.Base.{
  ℕ, ◌≡◌, refl, ap, ◌∙◌, Bool, true, false, not, ◌&&◌, [], ◌∷◌, ◌++◌, arith, ◌==◌, if◌then◌else◌,
  append_assoc,
}
use rivendell.Format.Mentions.{codes}
use rivendell.Regex.{Text}
use rivendell.Html.{replace_unit, escape_html, read, span_around, sp, Mark, class_name}
use rivendell.Html.{hl_kw, hl_bi, hl_fn, hl_cm, hl_str, hl_num, hl_hunk, hl_ins, hl_del}

-- One escaped code unit.
abbrev pub escaped : ℕ → Text
escaped c =
    if c == 38
    then codes "&amp;"
    else if c == 60
    then codes "&lt;"
    else if c == 62
    then codes "&gt;"
    else if c == 34
    then codes "&quot;"
    else if c == 39
    then codes "&#39;"
    else c ∷ []

pub escape_html-cons : (c : ℕ) (s : Text) → escape_html (c ∷ s) ≡ escaped c ++ escape_html s
unfolding escape_html replace_unit
escape_html-cons c s = ground arith

read-escaped : (c : ℕ) (t : Text) → read 0 false (escaped c ++ t) ≡ c ∷ read 0 false t
unfolding read
read-escaped c t = ground arith

pub read-escape_html : (s t : Text) → read 0 false (escape_html s ++ t) ≡ s ++ read 0 false t
unfolding escape_html read
read-escape_html [] t = refl
read-escape_html (c ∷ s) t =
    ap (λ x. read 0 false (x ++ t)) (escape_html-cons c s)
    ∙ (ap (read 0 false) (append_assoc (escaped c) (escape_html s) t)
        ∙ (read-escaped c (escape_html s ++ t) ∙ ap (λ x. c ∷ x) (read-escape_html s t)))

-- A class name with no `>` in it.
abbrev pub is_plain : Text → Bool
is_plain [] = true
is_plain (c ∷ cs) = not (c == 62) && is_plain cs

read_plain : (s t : Text) → is_plain s ≡ true → read 0 true (s ++ t) ≡ read 0 true t
unfolding read
read_plain [] t h = refl
read_plain (c ∷ s) t h = ground (arith, read_plain s t)

-- A tag that opens a span, and one that closes it.
read_open :
    (cls t : Text)
    → is_plain cls ≡ true
    → read 0 false (codes "<span class=\"" ++ (cls ++ (codes "\">" ++ t))) ≡ read 0 false t
unfolding read
read_open cls t h = read_plain cls (codes "\">" ++ t) h

read_close : (t : Text) → read 0 false (codes "</span>" ++ t) ≡ read 0 false t
unfolding read
read_close t = refl

pub read-span_around :
    (cls html s t : Text)
    → is_plain cls ≡ true
    → ((u : Text) → read 0 false (html ++ u) ≡ s ++ read 0 false u)
    → read 0 false (span_around cls html ++ t) ≡ s ++ read 0 false t
read-span_around cls html s t p h =
    let close = codes "</span>" in
    let regroup : (span_around cls html ++ t)
        ≡ codes "<span class=\"" ++ (cls ++ (codes "\">" ++ (html ++ (close ++ t)))) =
      ap (λ x. codes "<span class=\"" ++ x)
        (append_assoc cls (codes "\">" ++ (html ++ close)) t
          ∙ ap (λ x. cls ++ (codes "\">" ++ x)) (append_assoc html close t)) in
    ap (read 0 false) regroup
    ∙ (read_open cls (html ++ (close ++ t)) p ∙ (h (close ++ t) ∙ ap (λ x. s ++ x) (read_close t)))

class_name_plain : (m : Mark) → is_plain (codes (class_name m)) ≡ true
class_name_plain hl_kw = refl
class_name_plain hl_bi = refl
class_name_plain hl_fn = refl
class_name_plain hl_cm = refl
class_name_plain hl_str = refl
class_name_plain hl_num = refl
class_name_plain hl_hunk = refl
class_name_plain hl_ins = refl
class_name_plain hl_del = refl

pub read-sp : (m : Mark) (s t : Text) → read 0 false (sp m s ++ t) ≡ s ++ read 0 false t
unfolding sp
read-sp m s t =
    read-span_around (codes (class_name m)) (escape_html s) s t (class_name_plain m)
      (λ u. read-escape_html s u)
