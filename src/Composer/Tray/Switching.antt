-- ===== src/Composer/Tray/Switching.antt =====
-- Uploads follow their channel.
use rivendell.Base.{ℕ, ◌<◌, ◌≡◌, Bool, false, Option, none, some, List, [], ◌∷◌, ◌==◌}
use rivendell.JsMap
use rivendell.JsMap.{JsMap}
use rivendell.Composer.Tray.{
  Tray, Text, elements, stash, unstash, take_all, remove, upload_starts, upload_ends,
  toggle_spoiler,
}

-- What the user and the uploads do while a channel is open.
pub data Deed : Type 0 where
  starts : Bool → Deed
  ends : ℕ → Option Text → Deed
  removes toggles : ℕ → Deed
  takes : Deed

unfoldable pub act : Deed → Tray → Tray
unfolding upload_starts upload_ends remove toggle_spoiler take_all
act (starts oversized) t = upload_starts oversized t
act (ends id url) t = upload_ends id url t
act (removes id) t = remove id t
act (toggles id) t = toggle_spoiler id t
act takes t = (take_all t).0

unfoldable pub act_all : List Deed → Tray → Tray
unfolding act
act_all [] t = t
act_all (d ∷ ds) t = act_all ds (act d t)

-- `selectChannel`: one channel is left and the other opened.
unfoldable pub switch : ℕ → ℕ → Tray → Tray
unfolding stash unstash
switch leaving id t = unstash id (stash leaving t)

-- The array of the channel is its draft and not the one in use.
abbrev Parked : ℕ → ℕ → List ℕ → Tray → Type 0
Parked cid p ids t =
    (JsMap.get cid t.drafts ≡ some p)
    × (elements p t ≡ ids)
    × (p < t.next)
    × ((t.pending == p) ≡ false)

-- The draft of the channel is not the array in use.
abbrev pub IsApart : ℕ → Option ℕ → Type 0
IsApart p none = Unit
IsApart p (some r) = (r == p) ≡ false
