-- ===== src/Regex/Classes.antt =====
-- Character classes and the derived forms of expressions.
use rivendell.Base.{
  ℕ, zero, suc, ◌-◌, String, Bool, true, false, not, ◌&&◌, ◌||◌, List, [], ◌∷◌, leb, ◌==◌,
  if◌then◌else◌, contains,
}
use rivendell.Format.Mentions.{codes}
use rivendell.Regex.{Text, Re, empty, one, seq, alt, star, edge}

abbrev pub between : ℕ → ℕ → ℕ → Bool
between lo hi c = leb lo c && leb c hi

-- `\d`, `[a-z]`, `[A-Z]`, `[a-zA-Z]`, `\w`
abbrev pub digit : ℕ → Bool
digit c = between 48 57 c

abbrev pub small : ℕ → Bool
small c = between 97 122 c

abbrev pub large : ℕ → Bool
large c = between 65 90 c

abbrev pub letter : ℕ → Bool
letter c = small c || large c

abbrev pub word : ℕ → Bool
word c = letter c || digit c || c == 95

abbrev pub hex : ℕ → Bool
hex c = digit c || between 97 102 c || between 65 70 c

-- `\s`
abbrev pub space : ℕ → Bool
space c =
    between 9 13 c
    || c == 32
    || c == 160
    || c == 5760
    || between 8192 8202 c
    || between 8232 8233 c
    || c == 8239
    || c == 8287
    || c == 12288
    || c == 65279

-- `.`, and `[\s\S]`
abbrev pub dot : ℕ → Bool
dot c = not (c == 10 || c == 13 || between 8232 8233 c)

abbrev pub any_unit : ℕ → Bool
any_unit c = true

-- `[...]` and `[^...]` of single characters.
abbrev pub among : String → ℕ → Bool
among s c = contains (codes s) c

abbrev pub but : String → ℕ → Bool
but s c = not (contains (codes s) c)

abbrev pub also : (ℕ → Bool) → String → ℕ → Bool
also f s c = f c || among s c

abbrev pub unit : ℕ → Re
unit c = one (λ x. x == c)

abbrev pub literally : Text → Re
literally [] = empty
literally (c ∷ []) = unit c
literally (c ∷ d ∷ s) = seq (unit c) (literally (d ∷ s))

abbrev pub lit : String → Re
lit s = literally (codes s)

abbrev pub plus : Re → Re
plus r = seq r (star r)

abbrev pub opt : Re → Re
opt r = alt r empty

-- `r{0,n}`
abbrev pub upto : ℕ → Re → Re
upto zero r = empty
upto (suc n) r = opt (seq r (upto n r))

-- `a|b|c`
abbrev pub choice : List String → Re
choice [] = one (λ x. false)
choice (s ∷ []) = lit s
choice (s ∷ t ∷ ss) = alt (lit s) (choice (t ∷ ss))

-- `\b` and the usual word characters.
abbrev pub boundary : Re
boundary = edge word

abbrev pub same_text : Text → Text → Bool
same_text [] [] = true
same_text (a ∷ s) (b ∷ t) = a == b && same_text s t
same_text _ _ = false

-- `toUpperCase` on ASCII.
abbrev pub upper : ℕ → ℕ
upper c = if small c then c - 32 else c
