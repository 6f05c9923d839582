-- ===== src/Examples/Editing.antt =====
-- The undo history on a small input.
use rivendell.Base.{◌≡◌, refl, false, none, some, [], ◌∷◌, arith}
use rivendell.UndoHistory.{Entry, History, record_edit, undo, redo, reset, current, blank}
use rivendell.UndoHistory.Steps.{undo-record_edit}
use rivendell.Base.{some, ◌∷◌, []}
use rivendell.Base.{◌≡◌, refl, [], ◌∷◌, arith, false, none}
use rivendell.JsMap
use rivendell.Composer.Tray.{Tray, empty_tray, new_upload}

abbrev typed : Entry
typed = record { value = 104 ∷ 105 ∷ []; start = 2; end = 2 }

abbrev fresh : History
unfolding reset
fresh = reset blank

undo-record_edit_example : (undo (record_edit 250 400 9 false typed fresh)).0 ≡ some blank
unfolding reset current rivendell.UndoHistory.coalesces
undo-record_edit_example =
    undo-record_edit 250 400 9 false typed (reset blank) (omega arith) (omega arith) refl refl

-- Upload 1 is under way in channel 3.
abbrev attaching : Tray
attaching = record empty_tray { uploads = (1, new_upload) ∷ []; seq = 1; arrays = (0, 1 ∷ []) ∷ [] }
