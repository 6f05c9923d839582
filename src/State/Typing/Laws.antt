-- ===== src/State/Typing/Laws.antt =====
-- Who is shown as typing, after each operation on the typing entries.
use rivendell.Base.{
  ℕ, ◌+◌, ◌≤◌, ◌≡◌, refl, sym, ◌∙◌, inl, inr, Bool, true, false, ◌&&◌, Option, none, some, [], ◌∷◌,
  arith, ltb, ◌==◌, if◌then◌else◌, ==_refl, Bool-cases, get_or, Option-cases, contains,
}
use rivendell.IdMap
use rivendell.IdMap.{IdMap}
use rivendell.IdMap.Order.{Above, Ascending, put-Ascending, delete-Ascending}
use rivendell.IdMap.Laws.{delete_absent, get-put, get-delete}
use rivendell.Model.{State}
use rivendell.State.Channels.{Collation}
use rivendell.State.Valid.{IsValid, TypingOk}
use rivendell.State.Valid.Parts.{sweep-Above, typers-Ascending}
use rivendell.State.Typing.{
  typers, put_typers, set_typing, fresh_in, active_typers, types_somewhere, kept, sweep,
  clear_typing_for_user,
}

-- An entry shows while its age is below the ttl.
abbrev shows : ℕ → ℕ → Option ℕ → Bool
shows now ttl none = false
shows now ttl (some at) = ltb now (at + ttl)

get-Above : {V : Type 0} (u k : ℕ) (m : IdMap V) → u ≤ k → Above k m → IdMap.get u m ≡ none
unfolding IdMap.get
get-Above u k [] l h = refl
get-Above u k ((j, v) ∷ m) l h = ground (arith, get-Above u k m l h.1)

contains-fresh_in :
    (now ttl u : ℕ) (m : IdMap ℕ)
    → Ascending m
    → contains (fresh_in now ttl m) u ≡ shows now ttl (IdMap.get u m)
unfolding fresh_in IdMap.get
contains-fresh_in now ttl u [] h = refl
contains-fresh_in now ttl u ((j, at) ∷ m) h =
    ground (arith, contains-fresh_in now ttl u m h.1, get-Above u j m)

typers-put_typers : (s : State) (c : ℕ) (ts : IdMap ℕ) → typers (put_typers s c ts) c ≡ ts
unfolding put_typers
typers-put_typers s c [] = rw (get-delete, ==_refl)
typers-put_typers s c (t ∷ ts) = rw (get-put, ==_refl)

-- Who shows in the channel after a typing frame: the sender by the new stamp, or not at all once
-- done, and everyone else as before.
pub active_typers-set_typing :
    (col : Collation) (s : State) (c u v at now ttl : ℕ) (active : Bool)
    → IsValid col s
    → contains (active_typers (set_typing s c u active at) c now ttl) v
      ≡ (if u == v then active && ltb now (at + ttl) else contains (active_typers s c now ttl) v)
unfolding set_typing active_typers
active_typers-set_typing col s c u v at now ttl true h =
    let asc = typers-Ascending s c h.4 in
    rw (typers-put_typers s c (IdMap.put u at (typers s c))) (
      ground (
        arith,
        contains-fresh_in now ttl v (IdMap.put u at (typers s c)) (put-Ascending u at _ asc),
        contains-fresh_in now ttl v (typers s c) asc,
        get-put u v at (typers s c),
      ))
active_typers-set_typing col s c u v at now ttl false h =
    let asc = typers-Ascending s c h.4 in
    rw (typers-put_typers s c (IdMap.delete u (typers s c))) (
      ground (
        arith,
        contains-fresh_in now ttl v (IdMap.delete u (typers s c)) (delete-Ascending u _ asc),
        contains-fresh_in now ttl v (typers s c) asc,
        get-delete u v (typers s c),
      ))

left : IdMap ℕ → Option ℕ → IdMap ℕ → IdMap ℕ
left ts none next = ts
left ts (some _) next = next

typers-kept :
    (c cid : ℕ) (ts : IdMap ℕ) (found : Option ℕ) (next : IdMap ℕ) (rest : IdMap (IdMap ℕ))
    → Above cid rest
    → get_or (IdMap.get c (kept cid ts found next rest)) []
      ≡ (if cid == c then left ts found next else get_or (IdMap.get c rest) [])
unfolding IdMap.get left
typers-kept c cid ts none next rest a = ground arith
typers-kept c cid ts (some x) [] rest a = ground (arith, get-Above c cid rest)
typers-kept c cid ts (some x) (t ∷ next) rest a = ground arith

left-delete :
    (uid : ℕ) (ts : IdMap ℕ)
    → left ts (IdMap.get uid ts) (IdMap.delete uid ts) ≡ IdMap.delete uid ts
unfolding left
left-delete uid ts = elim (Option-cases (IdMap.get uid ts)) [
  | inl e ↦ rw (e, left) (sym (delete_absent uid ts e))
  | inr f ↦ rw (f.1, left)
]

-- After a sweep each channel has lost the user's entry.
typers-sweep :
    (uid c : ℕ) (m : IdMap (IdMap ℕ))
    → Ascending m
    → get_or (IdMap.get c (sweep uid m)) [] ≡ IdMap.delete uid (get_or (IdMap.get c m) [])
unfolding sweep IdMap.get
typers-sweep uid c [] h = unfold IdMap.delete in refl
typers-sweep uid c ((cid, ts) ∷ m) h =
    typers-kept c cid ts (IdMap.get uid ts) (IdMap.delete uid ts) (sweep uid m)
      (sweep-Above uid cid m h.0)
    ∙ ground (arith, left-delete uid ts, typers-sweep uid c m h.1)

types_nowhere :
    (uid c : ℕ) (m : IdMap (IdMap ℕ))
    → types_somewhere uid m ≡ false
    → IdMap.get uid (get_or (IdMap.get c m) []) ≡ none
unfolding types_somewhere IdMap.get
types_nowhere uid c [] h = refl
types_nowhere uid c ((cid, ts) ∷ m) h = ground (arith, types_nowhere uid c m)

typers-clear_typing_for_user :
    (s : State) (uid c : ℕ)
    → TypingOk s.typing
    → typers (clear_typing_for_user s uid) c ≡ IdMap.delete uid (typers s c)
unfolding clear_typing_for_user
typers-clear_typing_for_user s uid c h = elim (Bool-cases (types_somewhere uid s.typing)) [
  | inl e ↦ rw e (typers-sweep uid c s.typing h.1)
  | inr e ↦ rw e (sym (delete_absent uid (typers s c) (types_nowhere uid c s.typing e)))
]

-- A user swept from the typing entries shows in no channel, and everyone else shows as before.
pub active_typers-clear_typing_for_user :
    (col : Collation) (s : State) (uid c v now ttl : ℕ)
    → IsValid col s
    → contains (active_typers (clear_typing_for_user s uid) c now ttl) v
      ≡ (if uid == v then false else contains (active_typers s c now ttl) v)
unfolding active_typers
active_typers-clear_typing_for_user col s uid c v now ttl h =
    let asc = typers-Ascending s c h.4 in
    rw (typers-clear_typing_for_user s uid c h.4) (
      ground (
        arith,
        contains-fresh_in now ttl v (IdMap.delete uid (typers s c)) (delete-Ascending uid _ asc),
        contains-fresh_in now ttl v (typers s c) asc,
        get-delete uid v (typers s c),
      ))
