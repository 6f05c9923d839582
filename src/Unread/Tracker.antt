-- ===== src/Unread/Tracker.antt =====
-- web/static/unread.js: `createUnreadTracker`, whose three maps are the fields of `Tracker`.
use rivendell.Base.{
  ℕ, ◌≡◌, refl, sym, ◌∙◌, ◌≢◌, Bool, true, false, Option, none, some, List, [], ◌∷◌, arith, ◌==◌,
  if◌then◌else◌, get_or, same_id, All,
}
use rivendell.IdMap
use rivendell.IdMap.{IdMap}
use rivendell.IdMap.Laws.{get-put, get-delete}

-- `last_marked` keeps `none` for an entry set to undefined.
pub record Tracker : Type 0 where
  pub last_marked : IdMap (Option ℕ)
  pub open_marker : IdMap ℕ
  pub manual_unread : IdMap Bool

abbrev pub new_tracker : Tracker
new_tracker = record { last_marked = []; open_marker = []; manual_unread = [] }

unfoldable pub marker_for : Tracker → ℕ → ℕ
marker_for t cid = get_or (IdMap.get cid t.open_marker) 0

unfoldable pub is_manual_unread : Tracker → ℕ → Bool
is_manual_unread t cid = get_or (IdMap.get cid t.manual_unread) false

unfoldable pub already_marked : Tracker → ℕ → ℕ → Bool
already_marked t cid newest = same_id (get_or (IdMap.get cid t.last_marked) none) (some newest)

-- The methods that change the tracker.
pub data Call : Type 0 where
  open_channel : ℕ → Bool → Option ℕ → Call
  seed_marker : ℕ → Bool → Option ℕ → Call
  pin_marker_if_unset : ℕ → Option ℕ → Call
  set_marker : ℕ → ℕ → Call
  set_manual_unread clear_manual_unread : ℕ → Call
  record_marked : ℕ → ℕ → Call
  forget_marked : ℕ → Call

-- `hadUnreads ? (lastReadId || 0) : 0`
abbrev divider : Bool → Option ℕ → ℕ
divider had_unreads last_read = if had_unreads then get_or last_read 0 else 0

unfoldable pub call : Tracker → Call → Tracker
call t (open_channel cid had last_read) = record t {
  open_marker = IdMap.put cid (divider had last_read) t.open_marker;
  manual_unread = IdMap.delete cid t.manual_unread;
}
call t (seed_marker cid has last_read) = elim (IdMap.get cid t.open_marker) [
  | none ↦ record t { open_marker = IdMap.put cid (divider has last_read) t.open_marker }
  | some _ ↦ t
]
call t (pin_marker_if_unset cid last_read) =
    if get_or (IdMap.get cid t.open_marker) 0 == 0
    then record t { open_marker = IdMap.put cid (get_or last_read 0) t.open_marker }
    else t
call t (set_marker cid id) = record t { open_marker = IdMap.put cid id t.open_marker }
call t (set_manual_unread cid) = record t { manual_unread = IdMap.put cid true t.manual_unread }
call t (clear_manual_unread cid) = record t { manual_unread = IdMap.delete cid t.manual_unread }
call t (record_marked cid newest) = record t {
  last_marked = IdMap.put cid (some newest) t.last_marked;
}
call t (forget_marked cid) = record t { last_marked = IdMap.put cid none t.last_marked }

unfoldable pub run : Tracker → List Call → Tracker
run t [] = t
run t (c ∷ cs) = run (call t c) cs

-- The calls that may move a placed divider of the channel, and those that lift its suppression.
abbrev pub Moves : ℕ → Call → Type 0
Moves cid (open_channel c had last_read) = c ≡ cid
Moves cid (set_marker c id) = c ≡ cid
Moves cid (seed_marker c has last_read) = ⊥
Moves cid (pin_marker_if_unset c last_read) = ⊥
Moves cid (set_manual_unread c) = ⊥
Moves cid (clear_manual_unread c) = ⊥
Moves cid (record_marked c newest) = ⊥
Moves cid (forget_marked c) = ⊥

abbrev pub Lifts : ℕ → Call → Type 0
Lifts cid (open_channel c had last_read) = c ≡ cid
Lifts cid (clear_manual_unread c) = c ≡ cid
Lifts cid (seed_marker c has last_read) = ⊥
Lifts cid (pin_marker_if_unset c last_read) = ⊥
Lifts cid (set_marker c id) = ⊥
Lifts cid (set_manual_unread c) = ⊥
Lifts cid (record_marked c newest) = ⊥
Lifts cid (forget_marked c) = ⊥

module _ (cid : ℕ) where
  call_keeps_marker :
      (t : Tracker) (c : Call)
      → ¬ (Moves cid c)
      → marker_for t cid ≢ 0
      → marker_for (call t c) cid ≡ marker_for t cid
  unfolding call marker_for
  call_keeps_marker t (open_channel c had last_read) n z =
      ground (arith, get-put c cid (divider had last_read) t.open_marker)
  call_keeps_marker t (seed_marker c has last_read) n z =
      ground (arith, get-put c cid (divider has last_read) t.open_marker)
  call_keeps_marker t (pin_marker_if_unset c last_read) n z =
      ground (arith, get-put c cid (get_or last_read 0) t.open_marker)
  call_keeps_marker t (set_marker c id) n z = ground (arith, get-put c cid id t.open_marker)
  call_keeps_marker t _ n z = refl

  -- A placed divider stays where it is through every call but a re-opening of its channel and an
  -- explicit move.
  pub run_keeps_marker :
      (t : Tracker) (cs : List Call)
      → All (λ c. ¬ (Moves cid c)) cs
      → marker_for t cid ≢ 0
      → marker_for (run t cs) cid ≡ marker_for t cid
  unfolding run
  run_keeps_marker t [] h z = refl
  run_keeps_marker t (c ∷ cs) h z =
      let kept = call_keeps_marker t c h.0 z in
      run_keeps_marker (call t c) cs h.1 (λ e. z (sym kept ∙ e)) ∙ kept

  call_keeps_manual :
      (t : Tracker) (c : Call)
      → ¬ (Lifts cid c)
      → is_manual_unread t cid ≡ true
      → is_manual_unread (call t c) cid ≡ true
  unfolding call is_manual_unread
  call_keeps_manual t (open_channel c had last_read) n z =
      ground (arith, get-delete c cid t.manual_unread)
  call_keeps_manual t (seed_marker c has last_read) n z = ground arith
  call_keeps_manual t (pin_marker_if_unset c last_read) n z = ground arith
  call_keeps_manual t (set_manual_unread c) n z = ground (arith, get-put c cid true t.manual_unread)
  call_keeps_manual t (clear_manual_unread c) n z = ground (arith, get-delete c cid t.manual_unread)
  call_keeps_manual t _ n z = z

  -- A channel marked unread by hand stays so through every call but its re-opening and the
  -- explicit lifting.
  pub run_keeps_manual :
      (t : Tracker) (cs : List Call)
      → All (λ c. ¬ (Lifts cid c)) cs
      → is_manual_unread t cid ≡ true
      → is_manual_unread (run t cs) cid ≡ true
  unfolding run
  run_keeps_manual t [] h z = z
  run_keeps_manual t (c ∷ cs) h z = run_keeps_manual (call t c) cs h.1 (call_keeps_manual t c h.0 z)
