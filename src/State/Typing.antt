-- ===== src/State/Typing.antt =====
-- web/static/state.js: who is typing where, with the time of the last refresh.
pub mod Laws
use rivendell.Base.{
  ℕ, zero, suc, ◌+◌, ◌-◌, ◌*◌, ◌/◌, ◌%◌, ◌^◌, ◌≤◌, ◌<◌, min, max, String, ◌≡◌, refl, sym, ap, ap₂,
  subst, subst₂, ◌∙◌, ◌≢◌, ◌↔◌, ◌⊎◌, inl, inr, Bool, true, false, not, ◌&&◌, ◌||◌, Option, none,
  some, List, [], ◌∷◌, ◌++◌, map, arith, ltb, leb, ◌==◌, if◌then◌else◌, ltb→lt, leb→le, ==_iff,
  ==_refl, Bool-cases, get_or, or_else, is_some, Option-cases, same_id, same_id_refl, matches_id,
  length, get_elem?, filter, any, find, All, length-append, contains, append_nil, append_assoc,
}
use rivendell.IdMap
use rivendell.IdMap.{IdMap}
use rivendell.Model.{State}

abbrev pub typing_ttl_ms : ℕ
typing_ttl_ms = 4000

-- `state.typing[channelId] || {}`
abbrev pub typers : State → ℕ → IdMap ℕ
typers s cid = get_or (IdMap.get cid s.typing) []

-- A channel without typers has no key.
unfoldable pub put_typers : State → ℕ → IdMap ℕ → State
put_typers s cid [] = record s { typing = IdMap.delete cid s.typing }
put_typers s cid (t ∷ ts) = record s { typing = IdMap.put cid (t ∷ ts) s.typing }

unfoldable pub set_typing : State → ℕ → ℕ → Bool → ℕ → State
unfolding put_typers
set_typing s cid uid active now =
    put_typers s cid
      (if active then IdMap.put uid now (typers s cid) else IdMap.delete uid (typers s cid))

-- `now - typers[uid] < ttl`, which may be a difference below 0.
unfoldable pub fresh_in : ℕ → ℕ → IdMap ℕ → List ℕ
fresh_in now ttl [] = []
fresh_in now ttl ((uid, at) ∷ m) =
    let rest = fresh_in now ttl m in if ltb now (at + ttl) then uid ∷ rest else rest

unfoldable pub active_typers : State → ℕ → ℕ → ℕ → List ℕ
unfolding fresh_in
active_typers s cid now ttl = fresh_in now ttl (typers s cid)

unfoldable pub types_somewhere : ℕ → IdMap (IdMap ℕ) → Bool
types_somewhere uid [] = false
types_somewhere uid ((cid, ts) ∷ m) = is_some (IdMap.get uid ts) || types_somewhere uid m

-- One turn of the loop: the entry stays, or loses the user, or goes with its last typer.
abbrev pub kept : ℕ → IdMap ℕ → Option ℕ → IdMap ℕ → IdMap (IdMap ℕ) → IdMap (IdMap ℕ)
kept cid ts none next rest = (cid, ts) ∷ rest
kept cid ts (some _) [] rest = rest
kept cid ts (some _) (t ∷ next) rest = (cid, t ∷ next) ∷ rest

unfoldable pub sweep : ℕ → IdMap (IdMap ℕ) → IdMap (IdMap ℕ)
sweep uid [] = []
sweep uid ((cid, ts) ∷ m) = kept cid ts (IdMap.get uid ts) (IdMap.delete uid ts) (sweep uid m)

unfoldable pub clear_typing_for_user : State → ℕ → State
unfolding types_somewhere sweep
clear_typing_for_user s uid =
    if types_somewhere uid s.typing then record s { typing = sweep uid s.typing } else s
