-- ===== src/Composer/Markers.antt =====
-- web/static/composer-richtext.js: toggleMarker and flankedDelete. Texts are code units.
pub mod Toggling
pub mod Slices
use rivendell.Base.{
  ℕ, zero, suc, ◌+◌, ◌-◌, ◌*◌, Bool, ◌&&◌, Option, none, some, List, [], ◌∷◌, ◌++◌, leb, ◌==◌,
  if◌then◌else◌, length,
}
use rivendell.Format.Mentions.{codes}
use rivendell.Regex.{Text, prefix}
use rivendell.Regex.Classes.{same_text}
use rivendell.UndoHistory.{Entry}

abbrev pub drop : ℕ → Text → Text
drop zero s = s
drop (suc n) [] = []
drop (suc n) (c ∷ s) = drop n s

-- `value.slice(i, j)` for places that are not negative.
abbrev pub slice : ℕ → ℕ → Text → Text
slice i j s = prefix (j - i) (drop i s)

-- The marker stands before `i`, and right after `j`.
abbrev pub flanked : Text → Text → ℕ → ℕ → Bool
flanked m v i j =
    let n = length m in
    leb n i && (same_text (slice (i - n) i v) m && same_text (slice j (j + n) v) m)

-- The selection begins and ends with the marker.
abbrev pub holds_both : Text → Text → ℕ → ℕ → Bool
holds_both m v i j =
    let n = length m in
    leb (2 * n) (j - i) && (same_text (slice i (i + n) v) m && same_text (slice (j - n) j v) m)

unfoldable pub toggle_marker : Text → Entry → Entry
toggle_marker m x =
    let v = x.value in
    let i = x.start in
    let j = x.end in
    let n = length m in
    if i == j && same_text (slice i (i + n) v) m
    then record { value = v; start = i + n; end = i + n }
    else if flanked m v i j
    then record {
      value = prefix (i - n) v ++ (slice i j v ++ drop (j + n) v);
      start = i - n;
      end = j - n;
    }
    else if holds_both m v i j
    then record {
      value = prefix i v ++ (slice (i + n) (j - n) v ++ drop j v);
      start = i;
      end = j - 2 * n;
    }
    else record {
      value = prefix i v ++ (m ++ (slice i j v ++ (m ++ drop j v)));
      start = i + n;
      end = j + n;
    }

abbrev pub wrap_markers : List Text
wrap_markers = codes "**" ∷ codes "~~" ∷ codes "||" ∷ codes "*" ∷ codes "_" ∷ codes "`" ∷ []

-- None if the deletion is an ordinary one.
unfoldable pub delete_in : List Text → Entry → Option Entry
delete_in [] x = none
delete_in (m ∷ ms) x =
    let n = length m in
    if flanked m x.value x.start x.end
    then some (record {
      value = prefix (x.start - n) x.value ++ drop (x.end + n) x.value;
      start = x.start - n;
      end = x.start - n;
    })
    else delete_in ms x

unfoldable pub flanked_delete : Entry → Option Entry
unfolding delete_in
flanked_delete x = delete_in wrap_markers x
