-- ===== src/Search/Answers.antt =====
-- The ends of requests keep the list right.
use rivendell.Base.{
  ℕ, suc, ◌<◌, ◌≡◌, refl, sym, ap, ap₂, subst, ◌∙◌, inl, inr, Bool, true, false, Option, none, some,
  List, [], ◌∷◌, ◌++◌, map, arith, ◌==◌, Bool-cases, length, get_elem?, All, true_ne_false,
}
use rivendell.Regex.{Text}
use rivendell.Search.{
  Hit, Row, found, Search, Request, end_run, fail_run, without, put_results, if_full, last_id,
  search_page, is_none_found,
}
use rivendell.Search.Pages.{
  first_pages, Shows, IsLatest, Falls, IsShown, IsValid, Older, without-Falls, without-All, All-get,
  others_Older, none-IsLatest, ArePositive, last_id_positive, last_id_same,
}

pub hidden_IsShown :
    (page : Text → Option ℕ → List Hit) (s : Search) → s.more_hidden ≡ true → IsShown page s
unfolding IsShown
hidden_IsShown page s h e = absurd (true_ne_false (sym h ∙ e))

map-found : (a b : List Hit) → map found a ++ map found b ≡ map found (a ++ b)
map-found [] b = refl
map-found (h ∷ a) b = ap (λ x. found h ∷ x) (map-found a b)

-- One page more, if it is full.
if_full-IsShown :
    (page : Text → Option ℕ → List Hit) (s : Search) (p : List Hit) (n : ℕ)
    → ArePositive page
    → s.more_hidden ≡ true
    → p ≡ page s.query (first_pages (page s.query) n).1
    → s.list ≡ map found ((first_pages (page s.query) n).0 ++ p)
    → IsShown page (if_full p s)
unfolding first_pages IsShown
if_full-IsShown page s p n pos hid e l = elim (Bool-cases (length p == search_page)) [
  | inr f ↦
      let same : if_full p s ≡ s = rw (f) in
      subst (IsShown page) (sym same) (hidden_IsShown page s hid)
  | inl f ↦
      let some_found : 0 < length p = ground (arith, f) in
      let fits : All (λ (h : Hit). 0 < h.id) p =
        subst (All (λ (h : Hit). 0 < h.id)) (sym e)
          (pos s.query (first_pages (page s.query) n).1) in
      let made : Search = record s { cursor = last_id s.cursor p; more_hidden = false } in
      let same : if_full p s ≡ made = rw (f) in
      let shows : Shows page s.query s.list (some (last_id s.cursor p)) = record {
        n = suc n;
        listed = l ∙ ap (λ x. map found ((first_pages (page s.query) n).0 ++ x)) e;
        next = ap some (last_id_same s.cursor 0 p some_found ∙ ap (last_id 0) e);
      } in
      subst (IsShown page) (sym same) (λ h. (shows, last_id_positive s.cursor p fits some_found))
]

put_new-IsShown :
    (page : Text → Option ℕ → List Hit) (s : Search) (p : List Hit)
    → ArePositive page
    → s.more_hidden ≡ true
    → p ≡ page s.query none
    → IsShown page (put_results true p s)
unfolding first_pages
put_new-IsShown page s p pos hid e = elim (Bool-cases (is_none_found p)) [
  | inl f ↦
      let made : Search = record s { list = Row.no_messages ∷ [] } in
      let same : put_results true p s ≡ made = rw (f) in
      subst (IsShown page) (sym same) (hidden_IsShown page made hid)
  | inr f ↦
      let made : Search = record s { list = map found p } in
      let same : put_results true p s ≡ if_full p made = rw (f) in
      subst (IsShown page) (sym same) (if_full-IsShown page made p 0 pos hid e refl)
]

put_next-IsShown :
    (page : Text → Option ℕ → List Hit) (s : Search) (p : List Hit) (b : Option ℕ)
    → ArePositive page
    → s.more_hidden ≡ true
    → Shows page s.query s.list b
    → p ≡ page s.query b
    → IsShown page (put_results false p s)
put_next-IsShown page s p b pos hid sh e =
    if_full-IsShown page (record s { list = s.list ++ map found p }) p sh.n pos hid
      (e ∙ ap (page s.query) sh.next)
      (ap (λ x. x ++ map found p) sh.listed ∙ map-found (first_pages (page s.query) sh.n).0 p)

if_full-seq : (p : List Hit) (s : Search) → (if_full p s).seq ≡ s.seq
if_full-seq p s = elim (Bool-cases (length p == search_page)) [ inl e ↦ rw (e) | inr e ↦ rw (e) ]

put_results-seq : (reset : Bool) (p : List Hit) (s : Search) → (put_results reset p s).seq ≡ s.seq
put_results-seq false p s = if_full-seq p (record s { list = s.list ++ map found p })
put_results-seq true p s = elim (Bool-cases (is_none_found p)) [
  | inl e ↦ rw (e)
  | inr e ↦ rw (e) (if_full-seq p (record s { list = map found p }))
]

-- A request that is not the latest one leaves the search as it is.
dropped-IsValid :
    (page : Text → Option ℕ → List Hit) (s : Search) (rs : List Request) (i : ℕ)
    → IsValid page (record { search = s; pending = rs })
    → IsValid page (record { search = s; pending = without i rs })
dropped-IsValid page s rs i v = record {
  falls = without-Falls i (suc s.seq) rs v.falls;
  latest = without-All (λ r. r.my_seq ≡ s.seq → IsLatest page s r) i rs v.latest;
  shown = v.shown;
}

-- After the latest one none is.
ended-IsValid :
    (page : Text → Option ℕ → List Hit) (s t : Search) (rs : List Request) (i : ℕ)
    → Falls (suc s.seq) rs
    → Older s.seq (without i rs)
    → t.seq ≡ s.seq
    → IsShown page t
    → IsValid page (record { search = t; pending = without i rs })
ended-IsValid page s t rs i f o e h = record {
  falls = subst (λ n. Falls (suc n) (without i rs)) (sym e) (without-Falls i (suc s.seq) rs f);
  latest = none-IsLatest page t s.seq (without i rs) o (omega (arith, e));
  shown = h;
}

latest_results :
    (page : Text → Option ℕ → List Hit) (s : Search) (q : Text) (b : Option ℕ) (reset : Bool)
    (m : ℕ)
    → ArePositive page
    → IsLatest page s (record { q = q; before = b; reset = reset; my_seq = m })
    → IsShown page (put_results reset (page q b) s)
unfolding IsLatest
latest_results page s q b true m pos l =
    put_new-IsShown page s (page q b) pos l.1 (ap₂ page l.0 l.2)
latest_results page s q b false m pos l =
    put_next-IsShown page s (page q b) b pos l.1 l.2 (ap (λ x. page x b) l.0)

pub end_run-IsValid :
    (page : Text → Option ℕ → List Hit) (s : Search) (rs : List Request) (i : ℕ) (r : Request)
    → ArePositive page
    → IsValid page (record { search = s; pending = rs })
    → get_elem? rs i ≡ some r
    → IsValid page (record { search = end_run r (page r.q r.before) s; pending = without i rs })
unfolding end_run
end_run-IsValid page s rs i r pos v g = elim (Bool-cases (r.my_seq == s.seq)) [
  | inr e ↦
      let same : end_run r (page r.q r.before) s ≡ s = rw (end_run, e) in
      subst (λ t. IsValid page (record { search = t; pending = without i rs })) (sym same)
        (dropped-IsValid page s rs i v)
  | inl e ↦
      let is : r.my_seq ≡ s.seq = ground (arith, e) in
      let same : end_run r (page r.q r.before) s ≡ put_results r.reset (page r.q r.before) s =
        rw (end_run, e) in
      let l = All-get (λ r. r.my_seq ≡ s.seq → IsLatest page s r) i rs r v.latest g is in
      subst (λ t. IsValid page (record { search = t; pending = without i rs })) (sym same)
        (ended-IsValid page s (put_results r.reset (page r.q r.before) s) rs i v.falls
          (others_Older s.seq i rs r v.falls g is) (put_results-seq r.reset (page r.q r.before) s)
          (latest_results page s r.q r.before r.reset r.my_seq pos l))
]

latest_hides :
    (page : Text → Option ℕ → List Hit) (s : Search) (r : Request)
    → IsLatest page s r
    → s.more_hidden ≡ true
unfolding IsLatest
latest_hides page s r l = l.1

pub fail_run-IsValid :
    (page : Text → Option ℕ → List Hit) (s : Search) (rs : List Request) (i : ℕ) (r : Request)
    → IsValid page (record { search = s; pending = rs })
    → get_elem? rs i ≡ some r
    → IsValid page (record { search = fail_run r s; pending = without i rs })
unfolding fail_run
fail_run-IsValid page s rs i r v g = elim (Bool-cases (r.my_seq == s.seq)) [
  | inr e ↦
      let same : fail_run r s ≡ s = rw (fail_run, e) in
      subst (λ t. IsValid page (record { search = t; pending = without i rs })) (sym same)
        (dropped-IsValid page s rs i v)
  | inl e ↦
      let is : r.my_seq ≡ s.seq = ground (arith, e) in
      let made : Search = record s { list = Row.failure ∷ [] } in
      let same : fail_run r s ≡ made = rw (fail_run, e) in
      let l = All-get (λ r. r.my_seq ≡ s.seq → IsLatest page s r) i rs r v.latest g is in
      subst (λ t. IsValid page (record { search = t; pending = without i rs })) (sym same)
        (ended-IsValid page s made rs i v.falls (others_Older s.seq i rs r v.falls g is) refl
          (hidden_IsShown page made (latest_hides page s r l)))
]
