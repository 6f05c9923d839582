-- ===== src/Exif/Bytes.antt =====
-- Bytes: reading, the first ones, the ones after those.
use rivendell.Base.{
  ℕ, zero, suc, ◌≤◌, ◌<◌, ◌≡◌, refl, sym, ap, List, [], ◌∷◌, ◌++◌, arith, length, All,
}

abbrev pub take : ℕ → List ℕ → List ℕ
take zero bs = []
take (suc n) [] = []
take (suc n) (b ∷ bs) = b ∷ take n bs

abbrev pub drop : ℕ → List ℕ → List ℕ
drop zero bs = bs
drop (suc n) [] = []
drop (suc n) (b ∷ bs) = drop n bs

-- `b[i]`, where an undefined one counts as 0.
abbrev pub byte_at : List ℕ → ℕ → ℕ
byte_at [] i = 0
byte_at (b ∷ bs) zero = b
byte_at (b ∷ bs) (suc i) = byte_at bs i

unfoldable pub concat : List (List ℕ) → List ℕ
concat [] = []
concat (p ∷ ps) = p ++ concat ps

abbrev pub IsByte : ℕ → Type 0
IsByte b = b < 256

pub take-append : (xs ys : List ℕ) (n : ℕ) → length xs ≡ n → take n (xs ++ ys) ≡ xs
take-append [] ys n e = rw (sym e) refl
take-append (x ∷ xs) ys zero e = absurd (omega (arith, e))
take-append (x ∷ xs) ys (suc n) e = ap (λ zs. x ∷ zs) (take-append xs ys n (omega (arith, e)))

pub drop-append : (xs ys : List ℕ) (n : ℕ) → length xs ≡ n → drop n (xs ++ ys) ≡ ys
drop-append [] ys n e = rw (sym e) refl
drop-append (x ∷ xs) ys zero e = absurd (omega (arith, e))
drop-append (x ∷ xs) ys (suc n) e = drop-append xs ys n (omega (arith, e))

pub length-take : (bs : List ℕ) (n : ℕ) → n ≤ length bs → length (take n bs) ≡ n
length-take bs zero h = refl
length-take [] (suc n) h = absurd (omega (arith, h))
length-take (b ∷ bs) (suc n) h = omega (arith, length-take bs n (omega (arith, h)))

pub take-All : (bs : List ℕ) (n : ℕ) → All IsByte bs → All IsByte (take n bs)
take-All bs zero h = tt
take-All [] (suc n) h = tt
take-All (b ∷ bs) (suc n) h = (h.0, take-All bs n h.1)

pub drop-All : (bs : List ℕ) (n : ℕ) → All IsByte bs → All IsByte (drop n bs)
drop-All bs zero h = h
drop-All [] (suc n) h = tt
drop-All (b ∷ bs) (suc n) h = drop-All bs n h.1

pub byte_at-IsByte : (bs : List ℕ) (i : ℕ) → All IsByte bs → IsByte (byte_at bs i)
byte_at-IsByte [] i h = omega arith
byte_at-IsByte (b ∷ bs) zero h = h.0
byte_at-IsByte (b ∷ bs) (suc i) h = byte_at-IsByte bs i h.1
