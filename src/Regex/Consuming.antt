-- ===== src/Regex/Consuming.antt =====
-- What a match takes.
use mathlib.Core.Path.{fun_ext}
use rivendell.Base.{
  ℕ, zero, suc, ◌+◌, ◌-◌, ◌≤◌, ◌<◌, min, ◌≡◌, refl, sym, ap, subst, ◌∙◌, inl, inr, Bool, false,
  Option, none, some, [], ◌∷◌, ◌++◌, arith, if◌then◌else◌, ltb→lt, Bool-cases, Option-cases, length,
  length-append, append_assoc, some_inj, none_ne,
}
use rivendell.Regex.{
  Text, Place, Re, empty, one, seq, alt, star, lazy, ahead, edge, Step, is_shorter, star_loop,
  lazy_loop, take_one, run, at_edge, prefix, exec, matched,
}
use rivendell.Regex.{orelse}

-- A match takes at least so many code units.
abbrev pub needs : Re → ℕ
needs empty = 0
needs (one f) = 1
needs (seq r s) = needs r + needs s
needs (alt r s) = min (needs r) (needs s)
needs _ = 0

-- A step that succeeds has taken a part of the text, of at least `n` code units.
abbrev pub Takes : ℕ → Step → Type 0
Takes n m =
    (p : Place) (k : Place → Option Place) (z : Place)
    → m p k ≡ some z
    → (q : Place) × (t : Text) × (k q ≡ some z) × (p.1 ≡ t ++ q.1) × (n + length q.1 ≤ length p.1)

take_one-Takes : (f : ℕ → Bool) → Takes 1 (take_one f)
take_one-Takes f (b, []) k z h = cc
take_one-Takes f (b, c ∷ cs) k z h = elim (Bool-cases (f c)) [
  | inl e ↦ ((some c, cs), c ∷ [], rw (e) at h, refl, omega arith)
  | inr e ↦ absurd (none_ne z (rw (e) at h))
]

skip_Takes :
    (p : Place) (k : Place → Option Place) (z : Place)
    → k p ≡ some z
    → (q : Place) × (t : Text) × (k q ≡ some z) × (p.1 ≡ t ++ q.1) × (0 + length q.1 ≤ length p.1)
skip_Takes p k z h = (p, [], h, refl, omega arith)

-- A round of a loop and what follows.
then_Takes :
    (n l : ℕ) (p q w : Place) (s t : Text)
    → p.1 ≡ s ++ q.1
    → n + length q.1 ≤ length p.1
    → q.1 ≡ t ++ w.1
    → l + length w.1 ≤ length q.1
    → (p.1 ≡ (s ++ t) ++ w.1) × ((n + l) + length w.1 ≤ length p.1)
then_Takes n l p q w s t e h f g = (cc (e, f, append_assoc s t w.1), omega (arith, h, g))

shorter_cases :
    (k : Place → Option Place) (q p z : Place)
    → (if is_shorter q p then k q else none) ≡ some z
    → k q ≡ some z
shorter_cases k q p z h = elim (Bool-cases (is_shorter q p)) [
  | inl e ↦ rw (e) at h
  | inr e ↦ absurd (none_ne z (rw (e) at h))
]

round_Takes :
    (n : ℕ) (m : Step) (f : Place → Option Place) (p : Place) (k : Place → Option Place) (z : Place)
    → Takes n m
    → ((q : Place)
        → f q ≡ some z
        → (w : Place) × (t : Text) × (k w ≡ some z)
          × (q.1 ≡ t ++ w.1)
          × (0 + length w.1 ≤ length q.1))
    → m p (λ q. if is_shorter q p then f q else none) ≡ some z
    → (w : Place) × (t : Text) × (k w ≡ some z) × (p.1 ≡ t ++ w.1) × (0 + length w.1 ≤ length p.1)
round_Takes n m f p k z v rest h =
    let a = v p (λ q. if is_shorter q p then f q else none) z h in
    let b = rest a.0 (shorter_cases f a.0 p z a.2) in
    let c = then_Takes n 0 p a.0 b.0 a.1 b.1 a.3 a.4 b.3 b.4 in
    (b.0, a.1 ++ b.1, b.2, c.0, omega (arith, c.1))

star_loop-Takes : (n more : ℕ) (m : Step) → Takes n m → Takes 0 (star_loop m more)
unfolding star_loop
star_loop-Takes n zero m v p k z h = skip_Takes p k z h
star_loop-Takes n (suc more) m v p k z h =
    let next : Place → Option Place = λ q. if is_shorter q p then star_loop m more q k else none in
    elim (Option-cases (m p next)) [
      | inl e ↦ skip_Takes p k z (rw (star_loop, e) at h)
      | inr e ↦
          round_Takes n m (λ q. star_loop m more q k) p k z v
            (λ q. star_loop-Takes n more m v q k z) (e.1 ∙ (rw (star_loop, e.1) at h))
    ]

lazy_loop-Takes : (n more : ℕ) (m : Step) → Takes n m → Takes 0 (lazy_loop m more)
unfolding lazy_loop
lazy_loop-Takes n zero m v p k z h = skip_Takes p k z h
lazy_loop-Takes n (suc more) m v p k z h = elim (Option-cases (k p)) [
  | inr e ↦ skip_Takes p k z (e.1 ∙ (rw (lazy_loop, e.1) at h))
  | inl e ↦
      round_Takes n m (λ q. lazy_loop m more q k) p k z v (λ q. lazy_loop-Takes n more m v q k z)
        (rw (lazy_loop, e) at h)
]

-- An expression takes what it needs.
run-Takes : (r : Re) → Takes (needs r) (run r)
unfolding run
run-Takes empty p k z h = skip_Takes p k z h
run-Takes (one f) p k z h = take_one-Takes f p k z h
run-Takes (seq r s) p k z h =
    let a = run-Takes r p (λ q. run s q k) z h in
    let b = run-Takes s a.0 k z a.2 in
    let c = then_Takes (needs r) (needs s) p a.0 b.0 a.1 b.1 a.3 a.4 b.3 b.4 in
    (b.0, a.1 ++ b.1, b.2, c.0, c.1)
run-Takes (alt r s) p k z h = elim (Option-cases (run r p k)) [
  | inr e ↦
      let a = run-Takes r p k z (e.1 ∙ (rw (run, e.1) at h)) in
      (a.0, a.1, a.2, a.3, omega (arith, a.4))
  | inl e ↦ let a = run-Takes s p k z (rw (run, e) at h) in (a.0, a.1, a.2, a.3, omega (arith, a.4))
]
run-Takes (star r) p k z h = star_loop-Takes (needs r) (length p.1) (run r) (run-Takes r) p k z h
run-Takes (lazy r) p k z h = lazy_loop-Takes (needs r) (length p.1) (run r) (run-Takes r) p k z h
run-Takes (ahead r) p k z h = elim (Option-cases (run r p (λ q. some q))) [
  | inr e ↦ skip_Takes p k z (rw (run, e.1) at h)
  | inl e ↦ absurd (none_ne z (rw (run, e) at h))
]
run-Takes (edge f) p k z h = elim (Bool-cases (at_edge f p)) [
  | inl e ↦ skip_Takes p k z (rw (run, e) at h)
  | inr e ↦ absurd (none_ne z (rw (run, e) at h))
]

pub prefix_zero : (w : Text) → prefix 0 w ≡ []
prefix_zero [] = refl
prefix_zero (c ∷ w) = refl

pub prefix-length : (t w : Text) → prefix (length t) (t ++ w) ≡ t
prefix-length [] w = prefix_zero w
prefix-length (c ∷ t) w = ap (λ x. c ∷ x) (prefix-length t w)

pub prefix-append : (t w : Text) → prefix (length (t ++ w) - length w) (t ++ w) ≡ t
prefix-append t w =
    let e : length (t ++ w) - length w ≡ length t = omega (arith, length-append t w) in
    rw (e) (prefix-length t w)

-- A match is the text between its ends, and takes what its expression needs.
pub exec_lem :
    (r : Re) (p q : Place)
    → exec r p ≡ some q
    → (p.1 ≡ matched p q ++ q.1) × (needs r + length q.1 ≤ length p.1)
unfolding exec
exec_lem r p q h =
    let a = run-Takes r p (λ w. some w) q h in
    let same : a.0 ≡ q = some_inj a.0 q a.2 in
    let e : p.1 ≡ a.1 ++ q.1 = a.3 ∙ ap (λ w. a.1 ++ w.1) same in
    let m : matched p q ≡ a.1 =
      ap (λ w. prefix (length w - length q.1) w) e ∙ prefix-append a.1 q.1 in
    (e ∙ ap (λ w. w ++ q.1) (sym m), subst (λ w. needs r + length w.1 ≤ length p.1) same a.4)

orelse-none : (o : Option Place) → orelse o none ≡ o
orelse-none none = refl
orelse-none (some p) = refl

-- More rounds than the text is long make no difference.
shorter_same :
    (p : Place) (f g : Place → Option Place)
    → ((q : Place) → length q.1 < length p.1 → f q ≡ g q)
    → (q : Place) → (if is_shorter q p then f q else none) ≡ (if is_shorter q p then g q else none)
shorter_same p f g h q = elim (Bool-cases (is_shorter q p)) [
  | inl e ↦ rw (e) (h q (ltb→lt (length q.1) (length p.1) e))
  | inr e ↦ rw (e)
]

nothing_shorter :
    (n : ℕ) (m : Step) (f : Place → Option Place) (p : Place)
    → Takes n m
    → length p.1 ≡ 0
    → m p (λ q. if is_shorter q p then f q else none) ≡ none
nothing_shorter n m f p v e =
    elim (Option-cases (m p (λ q. if is_shorter q p then f q else none))) [
      | inl h ↦ h
      | inr h ↦
          let a = v p (λ q. if is_shorter q p then f q else none) h.0 h.1 in
          let no : is_shorter a.0 p ≡ false = rw (e) (ground arith) in
          absurd (none_ne h.0 (rw (no) at (a.2)))
    ]

pub star_loop_enough :
    (n more : ℕ) (m : Step) (k : Place → Option Place)
    → Takes n m
    → (p : Place) → length p.1 ≤ more
    → star_loop m (suc more) p k ≡ star_loop m more p k
unfolding star_loop
star_loop_enough n zero m k v p l =
    ap (λ o. orelse o (k p)) (nothing_shorter n m k p v (omega (arith, l)))
star_loop_enough n (suc more) m k v p l =
    ap (λ f. orelse (m p f) (k p))
      (fun_ext (
        shorter_same p (λ q. star_loop m (suc more) q k) (λ q. star_loop m more q k)
          (λ q s. star_loop_enough n more m k v q (omega (arith, l, s)))))

pub lazy_loop_enough :
    (n more : ℕ) (m : Step) (k : Place → Option Place)
    → Takes n m
    → (p : Place) → length p.1 ≤ more
    → lazy_loop m (suc more) p k ≡ lazy_loop m more p k
unfolding lazy_loop
lazy_loop_enough n zero m k v p l =
    ap (λ o. orelse (k p) o) (nothing_shorter n m k p v (omega (arith, l))) ∙ orelse-none (k p)
lazy_loop_enough n (suc more) m k v p l =
    ap (λ f. orelse (k p) (m p f))
      (fun_ext (
        shorter_same p (λ q. lazy_loop m (suc more) q k) (λ q. lazy_loop m more q k)
          (λ q s. lazy_loop_enough n more m k v q (omega (arith, l, s)))))
