-- ===== src/Syntax/Fidelity.antt =====
-- The highlighter neither loses nor adds any text, and it ends.
use text.Mathlib.Text.{◌==◌ as str_eq}
use rivendell.Base.{
  ℕ, zero, suc, ◌+◌, ◌≤◌, String, ◌≡◌, refl, sym, ap, ap₂, subst, ◌∙◌, inl, inr, false, ◌||◌,
  Option, none, some, List, [], ◌∷◌, ◌++◌, map, arith, ◌==◌, Bool-cases, Option-cases, length,
  append_nil, append_assoc,
}
use rivendell.Regex.{Text, Place, exec, matched}
use rivendell.Regex.Consuming.{exec_lem}
use rivendell.Html.{escape_html, read, text_of}
use rivendell.Html.Reading.{read-sp, read-escape_html}
use rivendell.Syntax.Tables.{AllTake, rules_for-AllTake}
use rivendell.Syntax.{
  emit, first_match, tokenize, add_unit, split_lines, join_with, diff_mark, diff_line,
  diff_highlight, is_nil, highlight,
}
use rivendell.Syntax.Rules.{Rule, Style, mark_of, rules_for}

read-emit : (style : Style) (m t : Text) → read 0 false (emit style m ++ t) ≡ m ++ read 0 false t
unfolding emit
read-emit style m t = elim (Option-cases (mark_of style m)) [
  | inl e ↦ rw (emit, e) (read-escape_html m t)
  | inr e ↦ rw (emit, e.1) (read-sp e.0 m t)
]

place_of : Place → Option (Style × Place) → Place
place_of p none = p
place_of p (some x) = x.1

-- What a matching rule leaves.
first_match_lem :
    (rules : List Rule) (p : Place) (s : Style) (q : Place)
    → AllTake rules
    → first_match rules p ≡ some (s, q)
    → (p.1 ≡ matched p q ++ q.1) × (1 + length q.1 ≤ length p.1)
unfolding first_match place_of
first_match_lem [] p s q a h = cc
first_match_lem (r ∷ rs) p s q a h = elim (Option-cases (exec r.re p)) [
  | inl e ↦ first_match_lem rs p s q a.1 (rw (first_match, e) at h)
  | inr e ↦
      let h2 : some (r.style, e.0) ≡ some (s, q) = rw (first_match, e.1) at h in
      let same : e.0 ≡ q = ap (place_of p) h2 in
      let l = exec_lem r.re p e.0 e.1 in
      subst (λ w. (p.1 ≡ matched p w ++ w.1) × (1 + length w.1 ≤ length p.1)) same
        (l.0, omega (arith, l.1, a.0))
]

-- HTML that shows a text.
abbrev pub Shows : Text → Text → Type 0
Shows html s = (t : Text) → read 0 false (html ++ t) ≡ s ++ read 0 false t

Shows-append : (g h s t : Text) → Shows g s → Shows h t → Shows (g ++ h) (s ++ t)
Shows-append g h s t a b u =
    ap (read 0 false) (append_assoc g h u)
    ∙ (a (h ++ u) ∙ (ap (λ x. s ++ x) (b u) ∙ sym (append_assoc s t (read 0 false u))))

pub tokenize_lem :
    (rounds : ℕ) (rules : List Rule) (b : Option ℕ) (code : Text)
    → AllTake rules
    → length code ≤ rounds
    → (html : Text) × (tokenize rounds rules (b, code) ≡ some html) × Shows html code
unfolding tokenize
tokenize_lem rounds rules b [] a l = ([], refl, λ t. refl)
tokenize_lem zero rules b (c ∷ cs) a l = absurd (omega (arith, l))
tokenize_lem (suc rounds) rules b (c ∷ cs) a l =
    elim (Option-cases (first_match rules (b, c ∷ cs))) [
      | inl e ↦
          let rest = tokenize_lem rounds rules (some c) cs a (omega (arith, l)) in
          let one = escape_html (c ∷ []) in
          (
            one ++ rest.0,
            rw (tokenize, e, rest.1),
            Shows-append one rest.0 (c ∷ []) cs (read-escape_html (c ∷ [])) rest.2,
          )
      | inr e ↦
          let q = e.0.1 in
          let m = matched (b, c ∷ cs) q in
          let f = first_match_lem rules (b, c ∷ cs) e.0.0 q a e.1 in
          let rest = tokenize_lem rounds rules q.0 q.1 a (omega (arith, l, f.1)) in
          let html = emit e.0.0 m in
          (
            html ++ rest.0,
            rw (tokenize, e.1, rest.1),
            subst (Shows (html ++ rest.0)) (sym f.0)
                (Shows-append html rest.0 m q.1 (read-emit e.0.0 m) rest.2),
          )
    ]

Shows-escape_html : (s : Text) → Shows (escape_html s) s
Shows-escape_html s t = read-escape_html s t

Shows-diff_line : (line : Text) → Shows (diff_line line) line
unfolding diff_line
Shows-diff_line line t = elim (Option-cases (diff_mark line)) [
  | inl e ↦ rw (diff_line, e) (read-escape_html line t)
  | inr e ↦ rw (diff_line, e.1) (read-sp e.0 line t)
]

-- A new line shows itself.
Shows-newline : Shows (10 ∷ []) (10 ∷ [])
unfolding read
Shows-newline t = refl

Shows-lines :
    (ls : List Text) → Shows (join_with (10 ∷ []) (map diff_line ls)) (join_with (10 ∷ []) ls)
unfolding join_with
Shows-lines [] t = refl
Shows-lines (l ∷ []) t = Shows-diff_line l t
Shows-lines (l ∷ m ∷ ls) t =
    let nl : Text = 10 ∷ [] in
    let hs = join_with nl (map diff_line (m ∷ ls)) in
    let js = join_with nl (m ∷ ls) in
    Shows-append (diff_line l) (nl ++ hs) l (nl ++ js) (Shows-diff_line l)
      (Shows-append nl hs nl js Shows-newline (Shows-lines (m ∷ ls))) t

join_with-add_unit :
    (c : ℕ) (ls : List Text) → join_with (10 ∷ []) (add_unit c ls) ≡ c ∷ join_with (10 ∷ []) ls
unfolding join_with
join_with-add_unit c [] = refl
join_with-add_unit c (l ∷ []) = refl
join_with-add_unit c (l ∷ m ∷ ls) = refl

split_lines-cons : (s : Text) → (l : Text) × (ls : List Text) × (split_lines s ≡ l ∷ ls)
unfolding split_lines
split_lines-cons [] = ([], [], refl)
split_lines-cons (c ∷ cs) =
    let r = split_lines-cons cs in
    elim (Bool-cases (c == 10)) [
      | inl e ↦ ([], split_lines cs, rw (split_lines, e))
      | inr e ↦ (c ∷ r.0, r.1, rw (split_lines, e, r.2))
    ]

join_with-split_lines : (s : Text) → join_with (10 ∷ []) (split_lines s) ≡ s
unfolding split_lines join_with
join_with-split_lines [] = refl
join_with-split_lines (c ∷ cs) =
    let ih = join_with-split_lines cs in
    elim (Bool-cases (c == 10)) [
      | inl e ↦
          let r = split_lines-cons cs in
          let is : 10 ≡ c = ground (arith, e) in
          let split : split_lines (c ∷ cs) ≡ [] ∷ (r.0 ∷ r.1) = rw (split_lines, e, r.2) in
          let joined : join_with (10 ∷ []) (r.0 ∷ r.1) ≡ cs = rw (r.2) at ih in
          ap (join_with (10 ∷ [])) split ∙ ap₂ (λ x s. x ∷ s) is joined
      | inr e ↦
          let split : split_lines (c ∷ cs) ≡ add_unit c (split_lines cs) = rw (split_lines, e) in
          ap (join_with (10 ∷ [])) split
          ∙ (join_with-add_unit c (split_lines cs) ∙ ap (λ x. c ∷ x) ih)
    ]

Shows-diff_highlight : (code : Text) → Shows (diff_highlight code) code
unfolding diff_highlight
Shows-diff_highlight code =
    subst (Shows (diff_highlight code)) (join_with-split_lines code)
      (Shows-lines (split_lines code))

Shows-text_of : (html s : Text) → Shows html s → text_of html ≡ s
unfolding text_of read
Shows-text_of html s h = ap (read 0 false) (sym (append_nil html)) ∙ (h [] ∙ append_nil s)

-- The highlighter of code blocks comes to an end on every code and language, and what a browser shows of the HTML that it returns is the code.
pub highlight_lem :
    (code : Text) (lang : String)
    → (html : Text) × (highlight code lang ≡ some html) × (text_of html ≡ code)
unfolding highlight
highlight_lem code lang =
    let plain = Shows-text_of (escape_html code) code (Shows-escape_html code) in
    elim (Bool-cases (is_nil code || str_eq lang "")) [
      | inl e ↦ (escape_html code, rw (highlight, e), plain)
      | inr e ↦ elim (Bool-cases (str_eq lang "diff" || str_eq lang "patch")) [
        | inl d ↦ (
          diff_highlight code,
          rw (highlight, e, d),
          Shows-text_of (diff_highlight code) code (Shows-diff_highlight code),
        )
        | inr d ↦ elim (Option-cases (rules_for lang)) [
          | inl r ↦ (escape_html code, rw (highlight, e, d, r), plain)
          | inr r ↦
              let t =
                tokenize_lem (length code) r.0 none code (rules_for-AllTake lang r.0 r.1)
                  (omega arith) in
              (t.0, rw (highlight, e, d, r.1, t.1), Shows-text_of t.0 code t.2)
        ]
      ]
    ]
