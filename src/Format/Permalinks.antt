-- ===== src/Format/Permalinks.antt =====
-- web/static/format.js: permalinks and the route that a click on a notification takes. Numbers are
-- read as doubles: the nearest one to a number is a parameter. `16` digits write every number below
-- 2^53.
pub mod Routes
use rivendell.Base.{
  ℕ, zero, suc, ◌+◌, ◌-◌, ◌*◌, ◌/◌, ◌%◌, ◌^◌, ◌≤◌, ◌<◌, min, max, String, ◌≡◌, refl, sym, ap, ap₂,
  subst, subst₂, ◌∙◌, ◌≢◌, ◌↔◌, ◌⊎◌, inl, inr, Bool, true, false, not, ◌&&◌, ◌||◌, Option, none,
  some, List, [], ◌∷◌, ◌++◌, map, arith, ltb, leb, ◌==◌, if◌then◌else◌, ltb→lt, leb→le, ==_iff,
  ==_refl, Bool-cases, get_or, or_else, is_some, Option-cases, same_id, same_id_refl, matches_id,
  length, get_elem?, filter, any, find, All, length-append, contains, append_nil, append_assoc,
}
pub mod Reading
use rivendell.Format.Mentions.{codes}
use rivendell.Regex.{Text}
use rivendell.Regex.Classes.{digit}

-- `String(n)`
unfoldable pub digits : ℕ → ℕ → Text → Text
digits zero n rest = rest
digits (suc k) n rest =
    let more = digits k (n / 10) ((48 + n % 10) ∷ rest) in
    if ltb n 10 then (48 + n) ∷ rest else more

unfoldable pub to_text : ℕ → Text
unfolding digits
to_text n = digits 16 n []

unfoldable pub permalink_hash : ℕ → ℕ → Text
unfolding to_text
permalink_hash channel_id message_id =
    codes "#c" ++ (to_text channel_id ++ (codes "/m" ++ to_text message_id))

-- `(\d+)`: the digits, and what follows them.
abbrev pub add_digit : ℕ → Text × Text → Text × Text
add_digit c p = (c ∷ p.0, p.1)

unfoldable pub span : Text → Text × Text
span [] = ([], [])
span (c ∷ cs) = let rest = span cs in if digit c then add_digit c rest else ([], c ∷ cs)

-- The digits to a number.
unfoldable pub value : ℕ → Text → ℕ
value n [] = n
value n (c ∷ cs) = value (n * 10 + (c - 48)) cs

-- The text after a prefix.
abbrev pub after : Text → Text → Option Text
after [] s = some s
after (c ∷ p) [] = none
after (c ∷ p) (x ∷ s) = if c == x then after p s else none

unfoldable pub number_of : (ℕ → ℕ) → Text → Option ℕ
unfolding value
number_of nearest [] = none
number_of nearest (c ∷ cs) = some (nearest (value 0 (c ∷ cs)))

pub record Permalink : Type 0 where
  pub channel_id : ℕ
  pub message_id : ℕ

abbrev pub whole : Option ℕ → Option ℕ → Text → Option Permalink
whole (some c) (some m) [] = some (record { channel_id = c; message_id = m })
whole c m rest = none

abbrev pub parse_message : (ℕ → ℕ) → Text → Option Text → Option Permalink
unfolding span
parse_message nearest channel none = none
parse_message nearest channel (some s) =
    whole (number_of nearest channel) (number_of nearest (span s).0) (span s).1

abbrev pub parse_channel : (ℕ → ℕ) → Option Text → Option Permalink
unfolding span
parse_channel nearest none = none
parse_channel nearest (some s) = parse_message nearest (span s).0 (after (codes "/m") (span s).1)

unfoldable pub parse_permalink : (ℕ → ℕ) → Text → Option Permalink
unfolding parse_channel parse_message number_of
parse_permalink nearest hash = parse_channel nearest (after (codes "#c") hash)

abbrev pub route_dedupe_ms : ℕ
route_dedupe_ms = 2000

-- The last route. (Equal keys are equal pairs of ids.)
pub record Last : Type 0 where
  pub key : Permalink
  pub at : ℕ

pub data Decision : Type 0 where
  skip jump select nowhere : Decision

abbrev pub same_key : Permalink → Permalink → Bool
same_key a b = a.channel_id == b.channel_id && a.message_id == b.message_id

-- `now - last.at < ROUTE_DEDUPE_MS`
abbrev pub is_repeat : Permalink → ℕ → Option Last → Bool
is_repeat pl now none = false
is_repeat pl now (some l) = same_key pl l.key && ltb now (l.at + route_dedupe_ms)

unfoldable pub decide_permalink_route :
    (ℕ → ℕ) → Text → (ℕ → Bool) → ℕ → Option Last → Decision × Option Last
unfolding parse_permalink
decide_permalink_route nearest hash channel_loaded now last = elim (parse_permalink nearest hash) [
  | none ↦ (skip, last)
  | some pl ↦ if is_repeat pl now last then (skip, last) else (
    if not (pl.message_id == 0)
        then jump
        else if channel_loaded pl.channel_id
        then select
        else nowhere,
    some (record { key = pl; at = now }),
  )
]
