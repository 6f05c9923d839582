-- ===== src/Composer/Markers/Slices.antt =====
-- Parts of a text by their places.
use rivendell.Base.{
  ℕ, zero, suc, ◌+◌, ◌-◌, ◌≤◌, min, ◌≡◌, refl, sym, ap, ap₂, ◌∙◌, true, [], ◌∷◌, ◌++◌, arith,
  length,
}
use rivendell.Regex.{Text, prefix}
use rivendell.Regex.Classes.{same_text}
use rivendell.Regex.Consuming.{prefix-length, prefix_zero}
use rivendell.Composer.Markers.{drop, slice}

pub same_text_refl : (s : Text) → same_text s s ≡ true
same_text_refl [] = refl
same_text_refl (c ∷ s) = ground (arith, same_text_refl s)

pub same_text_eq : (s t : Text) → same_text s t ≡ true → s ≡ t
same_text_eq [] [] h = refl
same_text_eq [] (d ∷ t) h = cc
same_text_eq (c ∷ s) [] h = cc
same_text_eq (c ∷ s) (d ∷ t) h =
    let e : c ≡ d = ground (arith, h) in
    let r : same_text s t ≡ true = ground (arith, h) in ap₂ (λ x y. x ∷ y) e (same_text_eq s t r)

drop_zero : (s : Text) → drop 0 s ≡ s
drop_zero [] = refl
drop_zero (c ∷ s) = refl

drop_nil : (n : ℕ) → drop n [] ≡ []
drop_nil zero = refl
drop_nil (suc n) = refl

drop-length : (p r : Text) → drop (length p) (p ++ r) ≡ r
drop-length [] r = drop_zero r
drop-length (c ∷ p) r = drop-length p r

pub prefix-drop : (n : ℕ) (s : Text) → s ≡ prefix n s ++ drop n s
prefix-drop zero s = sym (ap₂ (λ x y. x ++ y) (prefix_zero s) (drop_zero s))
prefix-drop (suc n) [] = refl
prefix-drop (suc n) (c ∷ s) = ap (λ x. c ∷ x) (prefix-drop n s)

pub length-prefix : (n : ℕ) (s : Text) → length (prefix n s) ≡ min n (length s)
length-prefix zero s = ap length (prefix_zero s) ∙ omega arith
length-prefix (suc n) [] = omega arith
length-prefix (suc n) (c ∷ s) = omega (arith, length-prefix n s)

pub length-drop : (n : ℕ) (s : Text) → length (drop n s) ≡ length s - n
length-drop zero s = ap length (drop_zero s) ∙ omega arith
length-drop (suc n) [] = omega arith
length-drop (suc n) (c ∷ s) = omega (arith, length-drop n s)

pub length-slice : (i j : ℕ) (s : Text) → length (slice i j s) ≡ min (j - i) (length s - i)
length-slice i j s = length-prefix (j - i) (drop i s) ∙ ap (min (j - i)) (length-drop i s)

-- A text in three parts, and a place after the first one.
pub prefix_part : (p r : Text) (v : Text) (i : ℕ) → v ≡ p ++ r → i ≡ length p → prefix i v ≡ p
prefix_part p r v i e h = rw (e, h) (prefix-length p r)

pub drop_part : (p r : Text) (v : Text) (i : ℕ) → v ≡ p ++ r → i ≡ length p → drop i v ≡ r
drop_part p r v i e h = rw (e, h) (drop-length p r)

pub slice_part :
    (p q r v : Text) (i j : ℕ)
    → v ≡ p ++ (q ++ r)
    → i ≡ length p
    → j ≡ length p + length q
    → slice i j v ≡ q
slice_part p q r v i j e h g =
    let n : j - i ≡ length q = omega (arith, h, g) in
    ap₂ prefix n (drop_part p (q ++ r) v i e h) ∙ prefix-length q r

pub drop-drop : (i k : ℕ) (s : Text) → drop k (drop i s) ≡ drop (i + k) s
drop-drop zero k s =
    let e : k ≡ 0 + k = omega arith in ap (drop k) (drop_zero s) ∙ ap (λ n. drop n s) e
drop-drop (suc i) k [] = drop_nil k ∙ sym (drop_nil (suc i + k))
drop-drop (suc i) k (c ∷ s) =
    let e : suc (i + k) ≡ suc i + k = omega arith in drop-drop i k s ∙ ap (λ n. drop n (c ∷ s)) e

pub parts_of : (i j : ℕ) (v : Text) → i ≤ j → v ≡ prefix i v ++ (slice i j v ++ drop j v)
parts_of i j v l =
    let e : i + (j - i) ≡ j = omega (arith, l) in
    let rest : drop i v ≡ slice i j v ++ drop j v =
      prefix-drop (j - i) (drop i v)
      ∙ ap (λ x. slice i j v ++ x) (drop-drop i (j - i) v ∙ ap (λ k. drop k v) e) in
    prefix-drop i v ∙ ap (λ x. prefix i v ++ x) rest

pub nil_of : (s : Text) → length s ≡ 0 → s ≡ []
nil_of [] h = refl
nil_of (c ∷ s) h = absurd (omega (arith, h))
