-- ===== src/Format/Mentions.antt =====
-- web/static/format.js: MENTION_RE and `mentionsUser`, over the code units of an ASCII text. (The
-- pattern captures ASCII names alone, and the server admits no other username.)
use rivendell.Base.{
  ℕ, zero, suc, ◌+◌, String, Bool, true, false, not, ◌&&◌, ◌||◌, Option, none, some, List, [], ◌∷◌,
  map, leb, ◌==◌, if◌then◌else◌, length, any,
}
use Prim.Native.Char.{code}

abbrev pub codes : String → List ℕ
codes String.[] = []
codes (String.◌∷◌ c s) = code c ∷ codes s

abbrev between : ℕ → ℕ → ℕ → Bool
between lo hi c = leb lo c && leb c hi

-- `[A-Za-z0-9_]`
unfoldable pub is_word : ℕ → Bool
is_word c = between b'A' b'Z' c || between b'a' b'z' c || between b'0' b'9' c || c == b'_'

-- `[^A-Za-z0-9_/]`
unfoldable pub is_boundary : ℕ → Bool
unfolding is_word
is_boundary c = not (is_word c || c == b'/')

-- `[A-Za-z0-9_]{0,n}`, greedily.
unfoldable pub word : ℕ → List ℕ → List ℕ
unfolding is_word
word zero xs = []
word (suc n) [] = []
word (suc n) (c ∷ cs) = let rest = word n cs in if is_word c then c ∷ rest else []

-- `@([A-Za-z0-9_]{2,32})` here: the name, if the pattern fits.
unfoldable pub at_name : List ℕ → Option (List ℕ)
unfolding word
at_name [] = none
at_name (c ∷ cs) =
    let name = word 32 cs in if c == b'@' && leb 2 (length name) then some name else none

abbrev tail_of : List ℕ → List ℕ
tail_of [] = []
tail_of (c ∷ cs) = cs

-- The matches of MENTION_RE with the index of the `@`. A match is resumed behind itself: `skip`
-- counts the code units that it has taken.
unfoldable pub scan : Bool → ℕ → ℕ → List ℕ → List (ℕ × List ℕ)
unfolding at_name is_boundary
scan start skip i [] = []
scan start (suc skip) i (c ∷ cs) = scan false skip (suc i) cs
scan start zero i (c ∷ cs) =
    let next = λ (k : ℕ). scan false k (suc i) cs in
    elim (if start then at_name (c ∷ cs) else none) [
      | some name ↦ (i, name) ∷ next (length name)
      | none ↦ elim (if is_boundary c then at_name cs else none) [
        | some name ↦ (suc i, name) ∷ next (suc (length name))
        | none ↦ next 0
      ]
    ]

-- `toLowerCase` on ASCII.
unfoldable pub lower : ℕ → ℕ
lower c = if between b'A' b'Z' c then c + 32 else c

unfoldable pub same_text : List ℕ → List ℕ → Bool
same_text [] [] = true
same_text (a ∷ as') (b ∷ bs) = a == b && same_text as' bs
same_text _ _ = false

unfoldable pub mentions_codes : List ℕ → List ℕ → Bool
unfolding scan lower same_text
mentions_codes content username =
    any (λ (m : ℕ × List ℕ). same_text (map lower m.1) (map lower username)) (scan true 0 0 content)

abbrev is_empty : List ℕ → Bool
is_empty [] = true
is_empty (c ∷ cs) = false

-- An empty content, and an empty or missing username, mention nobody.
unfoldable pub mentions_user : String → Option String → Bool
unfolding mentions_codes
mentions_user content none = false
mentions_user content (some username) =
    not (is_empty (codes content))
    && not (is_empty (codes username))
    && mentions_codes (codes content) (codes username)
