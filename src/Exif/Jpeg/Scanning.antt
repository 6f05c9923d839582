-- ===== src/Exif/Jpeg/Scanning.antt =====
-- Walking segments that were written one after the other.
use rivendell.Base.{
  ℕ, zero, suc, ◌+◌, ◌-◌, ◌≤◌, ◌≡◌, refl, sym, ap, subst, ◌∙◌, inl, inr, Bool, true, false, List,
  [], ◌∷◌, ◌++◌, arith, ◌==◌, if◌then◌else◌, ==_iff, Bool-cases, length, All, length-append,
}
use rivendell.Exif.Bytes.{take, concat, take-append, drop-append, length-take}
use rivendell.Exif.Jpeg.{Segment, stop, segment, move_at, keeps, with_segment, noted, scan, segs}
use rivendell.Base.{Bool-cases, ==_iff, inl, inr, ◌∙◌, ap, All}

-- A kept segment: whatever follows it, the walk takes it whole.
pub record IsWhole (k : Segment) : Type 0 where
  pub taken : (rest : List ℕ) → move_at (k.seg ++ rest) ≡ segment k.marker (length k.seg)
  pub kept_marker : keeps k.marker ≡ true
  pub long : 4 ≤ length k.seg

take_four :
    (n a b c d : ℕ) (r : List ℕ)
    → 4 ≤ n
    → take n (a ∷ b ∷ c ∷ d ∷ r) ≡ a ∷ b ∷ c ∷ d ∷ take (n - 4) r
take_four zero a b c d r h = absurd (omega (arith, h))
take_four (suc zero) a b c d r h = absurd (omega (arith, h))
take_four (suc (suc zero)) a b c d r h = absurd (omega (arith, h))
take_four (suc (suc (suc zero))) a b c d r h = absurd (omega (arith, h))
take_four (suc (suc (suc (suc n)))) a b c d r h = ap (λ k. a ∷ b ∷ c ∷ d ∷ take k r) (omega arith)

header_size :
    (b k hi lo m n : ℕ) (more : List ℕ)
    → move_at (b ∷ k ∷ hi ∷ lo ∷ more) ≡ segment m n
    → (n ≤ length more + 4) × (4 ≤ n)
unfolding move_at
header_size b k hi lo m n more h = ground arith

header_move :
    (b k hi lo m n : ℕ) (more others : List ℕ)
    → move_at (b ∷ k ∷ hi ∷ lo ∷ more) ≡ segment m n
    → n ≤ length others + 4
    → move_at (b ∷ k ∷ hi ∷ lo ∷ others) ≡ segment m n
unfolding move_at
header_move b k hi lo m n more others h l = ground arith

-- A move that takes a segment reads no further than it takes.
pub move-taken :
    (bytes rest : List ℕ) (m n : ℕ)
    → move_at bytes ≡ segment m n
    → (n ≤ length bytes) × (4 ≤ n) × (move_at (take n bytes ++ rest) ≡ segment m n)
unfolding move_at
move-taken [] rest m n h = cc
move-taken (b ∷ []) rest m n h = cc
move-taken (b ∷ k ∷ []) rest m n h = ground arith
move-taken (b ∷ k ∷ hi ∷ []) rest m n h = ground arith
move-taken (b ∷ k ∷ hi ∷ lo ∷ more) rest m n h =
    let z = header_size b k hi lo m n more h in
    let l = length-append (take (n - 4) more) rest in
    let t = length-take more (n - 4) (omega (arith, z.0)) in
    (
      omega (arith, z.0),
      z.1,
      subst (λ xs. move_at (xs ++ rest) ≡ segment m n) (sym (take_four n b k hi lo more z.1))
          (header_move b k hi lo m n more (take (n - 4) more ++ rest) h (omega (arith, l, t, z.1))),
    )

pub scan_step :
    (fuel o m : ℕ) (seg rest : List ℕ)
    → move_at (seg ++ rest) ≡ segment m (length seg)
    → scan (suc fuel) o (seg ++ rest) ≡ with_segment m seg (scan fuel (noted m seg o) rest)
unfolding scan
scan_step fuel o m seg rest h =
    rw (scan, h, take-append seg rest (length seg) refl, drop-append seg rest (length seg) refl)

pub scan_stop :
    (fuel o : ℕ) (bytes : List ℕ)
    → move_at bytes ≡ stop
    → scan fuel o bytes ≡ record { kept = []; orientation = o; dropped = false; tail = bytes }
unfolding scan
scan_stop zero o bytes h = refl
scan_stop (suc fuel) o bytes h = rw (scan, h)

-- The bytes of the segments and of what follows them.
abbrev pub joined : List Segment → List ℕ → List ℕ
unfolding concat
joined ks tail = concat (segs ks ++ (tail ∷ []))

pub append_nil : (xs : List ℕ) → xs ++ [] ≡ xs
append_nil [] = refl
append_nil (x ∷ xs) = ap (λ ys. x ∷ ys) (append_nil xs)

pub if_true {ℓ} : {A : Type ℓ} (b : Bool) (x y : A) → b ≡ true → (if b then x else y) ≡ x
if_true b x y h = rw h

pub noted_kept : (m o : ℕ) (seg : List ℕ) → keeps m ≡ true → noted m seg o ≡ o
unfolding noted
noted_kept m o seg h = elim (Bool-cases (m == 225)) [
  | inl e ↦ cc (subst (λ k. keeps k ≡ true) ((==_iff m 225).0 e) h)
  | inr e ↦ rw e
]

-- Walking kept segments finds them again, drops none and ends at the tail.
pub scan-joined :
    (fuel o : ℕ) (ks : List Segment) (tail : List ℕ)
    → All IsWhole ks
    → move_at tail ≡ stop
    → length (joined ks tail) ≤ fuel
    → scan fuel o (joined ks tail)
      ≡ record { kept = ks; orientation = o; dropped = false; tail = tail }
unfolding concat
scan-joined fuel o [] tail w t h = rw (append_nil tail) (scan_stop fuel o tail t)
scan-joined zero o (k ∷ ks) tail w t h =
    absurd (omega (arith, h, w.0.long, length-append k.seg (joined ks tail)))
scan-joined (suc fuel) o (k ∷ ks) tail w t h =
    let l = length-append k.seg (joined ks tail) in
    let shorter : length (joined ks tail) ≤ fuel = omega (arith, h, l, w.0.long) in
    let ih = scan-joined fuel o ks tail w.1 t shorter in
    let first = scan_step fuel o k.marker k.seg (joined ks tail) (w.0.taken (joined ks tail)) in
    first
    ∙ (ap (λ p. with_segment k.marker k.seg (scan fuel p (joined ks tail)))
          (noted_kept k.marker o k.seg w.0.kept_marker)
        ∙ (ap (with_segment k.marker k.seg) ih ∙ if_true (keeps k.marker) _ _ w.0.kept_marker))
