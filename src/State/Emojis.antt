-- ===== src/State/Emojis.antt =====
-- web/static/state.js: the registry of custom emojis, keyed by shortcode.
use rivendell.Base.{String, none, some, List, [], ◌∷◌}
use rivendell.StrMap
use rivendell.StrMap.{StrMap}
use rivendell.Model.{Emoji, State}

abbrev add_emojis : List Emoji → StrMap Emoji → StrMap Emoji
add_emojis [] m = m
add_emojis (e ∷ es) m = add_emojis es (StrMap.put e.shortcode e m)

unfoldable pub set_emojis : State → List Emoji → State
set_emojis s list = record s { emojis = add_emojis list [] }

unfoldable pub upsert_emoji : State → Emoji → State
upsert_emoji s e = record s { emojis = StrMap.put e.shortcode e s.emojis }

unfoldable pub remove_emoji : State → String → State
remove_emoji s code = elim (StrMap.get code s.emojis) [
  | none ↦ s
  | some _ ↦ record s { emojis = StrMap.delete code s.emojis }
]
