-- ===== src/UndoHistory.antt =====
-- web/static/composer-richtext.js: `createUndoHistory`. A text is the list of its code units; a
-- `lastTime` of none is -Infinity.
pub mod Steps
use rivendell.Base.{
  ℕ, zero, suc, ◌+◌, ◌-◌, Bool, true, false, not, ◌&&◌, Option, none, some, List, [], ◌∷◌, ◌++◌,
  ltb, leb, ◌==◌, if◌then◌else◌, length,
}

pub record Entry : Type 0 where
  pub value : List ℕ
  pub start : ℕ
  pub end : ℕ

pub record History : Type 0 where
  pub entries : List Entry
  pub index : ℕ
  pub last_time : Option ℕ

abbrev pub blank : Entry
blank = record { value = []; start = 0; end = 0 }

abbrev pub entry_at : ℕ → List Entry → Entry
entry_at i [] = blank
entry_at zero (e ∷ es) = e
entry_at (suc i) (e ∷ es) = entry_at i es

abbrev pub set_entry : ℕ → Entry → List Entry → List Entry
set_entry i e [] = []
set_entry zero e (d ∷ es) = e ∷ es
set_entry (suc i) e (d ∷ es) = d ∷ set_entry i e es

-- `entries.slice(0, n)`
abbrev pub slice_to : ℕ → List Entry → List Entry
slice_to zero es = []
slice_to (suc n) [] = []
slice_to (suc n) (e ∷ es) = e ∷ slice_to n es

abbrev pub shift : List Entry → List Entry
shift [] = []
shift (e ∷ es) = es

-- `a.startsWith(b)`
abbrev pub starts_with : List ℕ → List ℕ → Bool
starts_with a [] = true
starts_with [] (c ∷ cs) = false
starts_with (a ∷ more) (c ∷ cs) = a == c && starts_with more cs

abbrev pub same_text : List ℕ → List ℕ → Bool
same_text a b = starts_with a b && length a == length b

unfoldable pub current : History → Entry
current h = entry_at h.index h.entries

-- `now - lastTime < coalesceMs`
abbrev pub is_recent : ℕ → ℕ → Option ℕ → Bool
is_recent now coalesce_ms none = false
is_recent now coalesce_ms (some t) = ltb now (coalesce_ms + t)

unfoldable pub coalesces : ℕ → ℕ → Bool → Entry → History → Bool
unfolding current
coalesces coalesce_ms now force e h =
    not force
    && h.index + 1 == length h.entries
    && is_recent now coalesce_ms h.last_time
    && ltb (length (current h).value) (length e.value)
    && starts_with e.value (current h).value

-- A fresh step after the current one; the oldest goes if there are too many.
unfoldable pub push : ℕ → Entry → History → History
push limit e h =
    let next = slice_to (h.index + 1) h.entries ++ (e ∷ []) in
    let kept = if ltb limit (length next) then shift next else next in
    record h { entries = kept; index = length kept - 1 }

unfoldable pub record_edit : ℕ → ℕ → ℕ → Bool → Entry → History → History
unfolding coalesces push current
record_edit limit coalesce_ms now force e h =
    if same_text e.value (current h).value
    then record h { entries = set_entry h.index (record e { value = (current h).value }) h.entries }
    else if coalesces coalesce_ms now force e h
    then record h { entries = set_entry h.index e h.entries; last_time = some now }
    else push limit e (record h { last_time = some now })

unfoldable pub undo : History → Option Entry × History
undo h =
    let back = record h { index = h.index - 1; last_time = none } in
    if h.index == 0 then (none, h) else (some (entry_at (h.index - 1) h.entries), back)

unfoldable pub redo : History → Option Entry × History
redo h =
    let forth = record h { index = h.index + 1; last_time = none } in
    if leb (length h.entries) (h.index + 1)
    then (none, h)
    else (some (entry_at (h.index + 1) h.entries), forth)

unfoldable pub reset : Entry → History
reset e = record { entries = e ∷ []; index = 0; last_time = none }
