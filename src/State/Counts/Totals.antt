-- ===== src/State/Counts/Totals.antt =====
-- The totals of the badges, and the counts of each channel, after each operation.
use rivendell.Base.{ℕ, ◌+◌, ◌≤◌, ◌≡◌, refl, none, [], ◌∷◌, arith}
use rivendell.IdMap
use rivendell.IdMap.{IdMap}
use rivendell.IdMap.Order.{Above, Ascending}
use rivendell.Model.{State}
use rivendell.State.Counts.{count, bump_unread, clear_unread, set_unread, total_unread}
use rivendell.State.Valid.{IsValid}
use rivendell.State.Channels.{Collation}

get-Above : (u k : ℕ) (m : IdMap ℕ) → u ≤ k → Above k m → IdMap.get u m ≡ none
unfolding IdMap.get
get-Above u k [] l h = refl
get-Above u k ((j, v) ∷ m) l h = ground (arith, get-Above u k m l h.1)

sum-put :
    (k n : ℕ) (m : IdMap ℕ)
    → Ascending m
    → IdMap.sum (IdMap.put k n m) + count m k ≡ IdMap.sum m + n
unfolding IdMap.sum IdMap.put IdMap.get
sum-put k n [] h = omega arith
sum-put k n ((j, w) ∷ m) h = ground (arith, sum-put k n m h.1, get-Above k j m)

sum-delete :
    (k : ℕ) (m : IdMap ℕ) → Ascending m → IdMap.sum (IdMap.delete k m) + count m k ≡ IdMap.sum m
unfolding IdMap.sum IdMap.delete IdMap.get
sum-delete k [] h = omega arith
sum-delete k ((j, w) ∷ m) h = ground (arith, sum-delete k m h.1, get-Above k j m)

-- The badge total moves exactly by what one channel's count gains or loses: it grows by one with
-- a bump, loses the channel's share when it is cleared, and trades it for the value that is set.
pub total_unread_lem :
    (col : Collation) (s : State) (cid n : ℕ)
    → IsValid col s
    → (total_unread (bump_unread s cid) ≡ total_unread s + 1)
      × (total_unread (clear_unread s cid) + count s.unread cid ≡ total_unread s)
      × (total_unread (set_unread s cid n) + count s.unread cid ≡ total_unread s + n)
unfolding total_unread bump_unread clear_unread set_unread
total_unread_lem col s cid n v =
    let asc = v.2.1 in
    (
      omega (arith, sum-put cid (count s.unread cid + 1) s.unread asc),
      ground (arith, sum-delete cid s.unread asc),
      ground (arith, sum-delete cid s.unread asc, sum-put cid n s.unread asc),
    )
