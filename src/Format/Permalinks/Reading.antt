-- ===== src/Format/Permalinks/Reading.antt =====
-- A permalink that is written is read back.
use rivendell.Base.{
  ℕ, zero, suc, ◌+◌, ◌-◌, ◌*◌, ◌/◌, ◌%◌, ◌^◌, ◌<◌, ◌≡◌, refl, ap, subst, ◌∙◌, inl, inr, true, false,
  some, [], ◌∷◌, ◌++◌, arith, ltb, ltb→lt, Bool-cases, length, All,
}
use rivendell.Format.Mentions.{codes}
use rivendell.Regex.{Text}
use rivendell.Regex.Classes.{digit}
use rivendell.Format.Permalinks.{
  digits, to_text, permalink_hash, span, value, number_of, parse_permalink,
}

pow_suc : (k : ℕ) → 10 ^ suc k ≡ 10 * 10 ^ k
pow_suc k = omega arith

value-digits : (k n : ℕ) (rest : Text) → n < 10 ^ k → value 0 (digits k n rest) ≡ value n rest
unfolding value digits
value-digits zero n rest l = ap (λ m. value m rest) (omega (arith, l))
value-digits (suc k) n rest l = elim (Bool-cases (ltb n 10)) [
  | inl e ↦
      let d : 0 * 10 + (48 + n - 48) ≡ n = omega arith in rw (digits, e) (ap (λ m. value m rest) d)
  | inr e ↦
      let less : n / 10 < 10 ^ k =
        let p : n < 10 * 10 ^ k = subst (λ m. n < m) (pow_suc k) l in omega (arith, p) in
      let d : (n / 10) * 10 + (48 + n % 10 - 48) ≡ n = omega arith in
      rw (digits, e)
        (value-digits k (n / 10) ((48 + n % 10) ∷ rest) less ∙ ap (λ m. value m rest) d)
]

-- Decimal digits, at least one.
IsNumber : Text → Type 0
IsNumber s = All (λ c. digit c ≡ true) s × (0 < length s)

is_digit : (n : ℕ) → n < 10 → digit (48 + n) ≡ true
is_digit n l = ground (arith, l)

digits-IsNumber :
    (k n : ℕ) (rest : Text)
    → All (λ c. digit c ≡ true) rest
    → 0 < k + length rest
    → IsNumber (digits k n rest)
unfolding digits IsNumber
digits-IsNumber zero n rest a p = (a, omega (arith, p))
digits-IsNumber (suc k) n rest a p = elim (Bool-cases (ltb n 10)) [
  | inl e ↦ rw (digits, e) ((is_digit n (ltb→lt n 10 e), a), omega arith)
  | inr e ↦
      rw (digits, e)
        (digits-IsNumber k (n / 10) ((48 + n % 10) ∷ rest) (is_digit (n % 10) (omega arith), a)
          (omega arith))
]

span-append :
    (s t : Text) (c : ℕ)
    → All (λ c. digit c ≡ true) s
    → digit c ≡ false
    → span (s ++ (c ∷ t)) ≡ (s, c ∷ t)
unfolding span
span-append [] t c a h = rw (span, h)
span-append (d ∷ s) t c a h = rw (span, a.0, span-append s t c a.1 h)

span_all : (s : Text) → All (λ c. digit c ≡ true) s → span s ≡ (s, [])
unfolding span
span_all [] a = refl
span_all (d ∷ s) a = rw (span, a.0, span_all s a.1)

to_text-IsNumber : (n : ℕ) → IsNumber (to_text n)
unfolding to_text
to_text-IsNumber n = digits-IsNumber 16 n [] tt (omega arith)

value-to_text : (n : ℕ) → n < 2 ^ 53 → value 0 (to_text n) ≡ n
unfolding to_text value
value-to_text n l = value-digits 16 n [] (omega (arith, l))

-- What reading a number as a double gives: below 2^53 the number itself.
abbrev pub IsExact : (ℕ → ℕ) → Type 0
IsExact nearest = (n : ℕ) → n < 2 ^ 53 → nearest n ≡ n

number_of-nonempty :
    (nearest : ℕ → ℕ) (s : Text) → 0 < length s → number_of nearest s ≡ some (nearest (value 0 s))
unfolding number_of
number_of-nonempty nearest [] l = absurd (omega (arith, l))
number_of-nonempty nearest (c ∷ s) l = refl

number_of-to_text :
    (nearest : ℕ → ℕ) (n : ℕ)
    → IsExact nearest
    → n < 2 ^ 53
    → number_of nearest (to_text n) ≡ some n
unfolding IsNumber
number_of-to_text nearest n x l =
    number_of-nonempty nearest (to_text n) (to_text-IsNumber n).1
    ∙ ap some (ap nearest (value-to_text n l) ∙ x n l)

-- A permalink to a message, written and read, where doubles are exact below 2^53 and both ids are below that.
pub parse_permalink-permalink_hash :
    (nearest : ℕ → ℕ) (channel_id message_id : ℕ)
    → IsExact nearest
    → channel_id < 2 ^ 53
    → message_id < 2 ^ 53
    → parse_permalink nearest (permalink_hash channel_id message_id)
      ≡ some (record { channel_id = channel_id; message_id = message_id })
unfolding parse_permalink permalink_hash IsNumber
parse_permalink-permalink_hash nearest c m x lc lm =
    let first : span (to_text c ++ (codes "/m" ++ to_text m))
        ≡ (to_text c, codes "/m" ++ to_text m) =
      span-append (to_text c) (109 ∷ to_text m) 47 (to_text-IsNumber c).0 refl in
    let second : span (to_text m) ≡ (to_text m, []) = span_all (to_text m) (to_text-IsNumber m).0 in
    rw (first, second, number_of-to_text nearest c x lc, number_of-to_text nearest m x lm)
