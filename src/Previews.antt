-- ===== src/Previews.antt =====
-- web/static/previews.js: the cache of link previews. A key is a number here, and a payload too.
use rivendell.Base.{
  ℕ, ◌≡◌, ◌≢◌, Bool, true, false, Option, none, some, List, [], ◌∷◌, arith, if◌then◌else◌, is_some,
  All,
}
use rivendell.IdMap
use rivendell.IdMap.{IdMap}
use rivendell.IdMap.Laws.{get-put, get-delete}
use rivendell.Base.{if◌then◌else◌, arith}

pub data Cached : Type 0 where
  loading pending failed : Cached
  resolved : ℕ → Cached

pub data Outcome : Type 0 where
  fetch wait ready : Outcome

unfoldable pub preview_outcome : Option Cached → Outcome
preview_outcome none = fetch
preview_outcome (some (resolved v)) = ready
preview_outcome (some _) = wait

-- The calls that a cache takes.
pub data Call : Type 0 where
  begin pends fails forget : ℕ → Call
  resolve : ℕ → ℕ → Call

unfoldable pub begin_fetch : ℕ → IdMap Cached → Bool × IdMap Cached
begin_fetch key m =
    if is_some (IdMap.get key m) then (false, m) else (true, IdMap.put key loading m)

unfoldable pub perform : IdMap Cached → Call → IdMap Cached
unfolding begin_fetch
perform m (begin key) = (begin_fetch key m).1
perform m (resolve key value) = IdMap.put key (resolved value) m
perform m (pends key) = IdMap.put key pending m
perform m (fails key) = IdMap.put key failed m
perform m (forget key) = IdMap.delete key m

unfoldable pub perform_all : IdMap Cached → List Call → IdMap Cached
perform_all m [] = m
perform_all m (c ∷ cs) = perform_all (perform m c) cs

-- The call does not forget the key.
abbrev pub Keeps : ℕ → Call → Type 0
Keeps key (forget k) = k ≢ key
Keeps key _ = Unit

has_put :
    (key k : ℕ) (v : Cached) (m : IdMap Cached)
    → is_some (IdMap.get key m) ≡ true
    → is_some (IdMap.get key (IdMap.put k v m)) ≡ true
has_put key k v m h = ground (arith, get-put k key v m)

perform-Keeps :
    (key : ℕ) (m : IdMap Cached) (c : Call)
    → Keeps key c
    → is_some (IdMap.get key m) ≡ true
    → is_some (IdMap.get key (perform m c)) ≡ true
unfolding perform begin_fetch
perform-Keeps key m (begin k) n h = ground (arith, has_put key k loading m h)
perform-Keeps key m (resolve k v) n h = has_put key k (resolved v) m h
perform-Keeps key m (pends k) n h = has_put key k pending m h
perform-Keeps key m (fails k) n h = has_put key k failed m h
perform-Keeps key m (forget k) n h = ground (arith, get-delete k key m)

perform_all-Keeps :
    (key : ℕ) (m : IdMap Cached) (cs : List Call)
    → All (Keeps key) cs
    → is_some (IdMap.get key m) ≡ true
    → is_some (IdMap.get key (perform_all m cs)) ≡ true
unfolding perform_all
perform_all-Keeps key m [] n h = h
perform_all-Keeps key m (c ∷ cs) n h =
    perform_all-Keeps key (perform m c) cs n.1 (perform-Keeps key m c n.0 h)

begun : (key : ℕ) (m : IdMap Cached) → is_some (IdMap.get key (perform m (begin key))) ≡ true
unfolding perform begin_fetch
begun key m = ground (arith, get-put key key loading m)

refused :
    (key : ℕ) (m : IdMap Cached) → is_some (IdMap.get key m) ≡ true → (begin_fetch key m).0 ≡ false
unfolding begin_fetch
refused key m h = rw (begin_fetch, h)

not_fetch : (o : Option Cached) → is_some o ≡ true → preview_outcome o ≢ fetch
unfolding preview_outcome
not_fetch o h = ground arith

-- After a fetch of a key has begun, no other one begins, and the renderer is never told to fetch,
-- through any calls that do not forget the key.
pub begins_once :
    (key : ℕ) (m : IdMap Cached) (cs : List Call)
    → All (Keeps key) cs
    → let later = perform_all (perform m (begin key)) cs in
      ((begin_fetch key later).0 ≡ false) × (preview_outcome (IdMap.get key later) ≢ fetch)
unfolding begin_fetch preview_outcome
begins_once key m cs n =
    let later = perform_all (perform m (begin key)) cs in
    let kept : is_some (IdMap.get key later) ≡ true =
      perform_all-Keeps key (perform m (begin key)) cs n (begun key m) in
    (refused key later kept, not_fetch (IdMap.get key later) kept)
