-- ===== src/Voice/Call/Roster.antt =====
-- The peers follow the newest roster.
use rivendell.Base.{
  ℕ, zero, suc, ◌≤◌, ◌<◌, ◌≡◌, refl, sym, ap, subst, ◌∙◌, inl, inr, Bool, true, false, not, ◌&&◌,
  ◌||◌, Option, none, some, List, [], ◌∷◌, arith, ltb, leb, ◌==◌, if◌then◌else◌, ==_iff, ==_refl,
  Bool-cases, is_some, same_id, get_elem?, All, contains,
}
use rivendell.JsMap
use rivendell.JsMap.{JsMap, get-set, get-delete}
use rivendell.Voice.Call.{
  Pc, Participant, Call, fresh_pc, create_pc, close_peer, close_unless, keys, remote_ids, offered,
  connect_to, connect_all, VoiceState, adopt, on_voice_state,
}

-- Whether the call has a connection to the user.
abbrev pub is_linked : ℕ → Call → Bool
is_linked u c = is_some (JsMap.get u c.peer_conns)

if_some {ℓ} :
    {A : Type ℓ} (b : Bool) (v : A) (o : Option A)
    → is_some (if b then some v else o) ≡ (b || is_some o)
if_some true v o = refl
if_some false v o = refl

if_none {ℓ} :
    {A : Type ℓ} (b : Bool) (o : Option A) → is_some (if b then none else o) ≡ (not b && is_some o)
if_none true o = refl
if_none false o = refl

set_linked :
    (u v : ℕ) (pc : Pc) (m : JsMap Pc)
    → is_some (JsMap.get u (JsMap.set v pc m)) ≡ ((v == u) || is_some (JsMap.get u m))
set_linked u v pc m = ap is_some (get-set v u pc m) ∙ if_some (v == u) pc (JsMap.get u m)

delete_linked :
    (u v : ℕ) (m : JsMap Pc)
    → is_some (JsMap.get u (JsMap.delete v m)) ≡ (not (v == u) && is_some (JsMap.get u m))
delete_linked u v m = ap is_some (get-delete v u m) ∙ if_none (v == u) (JsMap.get u m)

contains-keys : (u : ℕ) (m : JsMap Pc) → contains (keys m) u ≡ is_some (JsMap.get u m)
unfolding JsMap.get
contains-keys u [] = refl
contains-keys u ((k, pc) ∷ m) = elim (Bool-cases (k == u)) [
  | inl e ↦ rw (e)
  | inr e ↦ rw (e, contains-keys u m)
]

or_false : (b : Bool) → b ≡ (b || false)
or_false true = refl
or_false false = refl

or_comm : (a b : Bool) → (a || b) ≡ (b || a)
or_comm true true = refl
or_comm true false = refl
or_comm false true = refl
or_comm false false = refl

and_false : (b : Bool) → false ≡ (b && false)
and_false true = refl
and_false false = refl

-- A user who is linked already changes nothing.
known_linked :
    (u v : ℕ) (c : Call) → is_linked v c ≡ true → is_linked u c ≡ (is_linked u c || (v == u))
known_linked u v c l = elim (Bool-cases (v == u)) [
  | inl e ↦ rw (e, subst (λ w. is_linked w c ≡ true) ((==_iff v u).0 e) l)
  | inr e ↦ rw (e) (or_false (is_linked u c))
]

new_linked :
    (u v : ℕ) (pc : Pc) (c : Call)
    → is_some (JsMap.get u (JsMap.set v pc c.peer_conns)) ≡ (is_linked u c || (v == u))
new_linked u v pc c = set_linked u v pc c.peer_conns ∙ or_comm (v == u) (is_linked u c)

connect_linked :
    (made : ℕ → Bool) (u v : ℕ) (c : Call)
    → is_linked u (connect_to made v c).0 ≡ (is_linked u c || (not (v == c.my_user_id) && (v == u)))
unfolding connect_to create_pc
connect_linked made u v c = elim (Bool-cases (v == c.my_user_id)) [
  | inl e ↦ rw (connect_to, e) (or_false (is_linked u c))
  | inr e ↦ elim (Bool-cases (is_linked v c)) [
    | inl l ↦ rw (connect_to, e, l) (known_linked u v c l)
    | inr l ↦ elim (Bool-cases (ltb c.my_user_id v)) [
      | inl o ↦ rw (connect_to, e, l, o) (new_linked u v (offered (made v)) c)
      | inr o ↦ rw (connect_to, e, l, o) (new_linked u v fresh_pc c)
    ]
  ]
]

connect_me :
    (made : ℕ → Bool) (v : ℕ) (c : Call) → (connect_to made v c).0.my_user_id ≡ c.my_user_id
unfolding connect_to create_pc
connect_me made v c = elim (Bool-cases (v == c.my_user_id || is_linked v c)) [
  | inl e ↦ rw (connect_to, e)
  | inr e ↦ elim (Bool-cases (ltb c.my_user_id v)) [
    | inl o ↦ rw (connect_to, e, o)
    | inr o ↦ rw (connect_to, e, o)
  ]
]

or_step : (l m e r : Bool) → ((l || (not m && e)) || r) ≡ (l || (if m then r else (e || r)))
or_step true m e r = refl
or_step false true e r = refl
or_step false false e r = refl

remote_step :
    (b : Bool) (u v : ℕ) (rest : List ℕ)
    → contains (if b then rest else v ∷ rest) u
      ≡ (if b then contains rest u else ((v == u) || contains rest u))
remote_step true u v rest = refl
remote_step false u v rest = refl

connect_all_linked :
    (made : ℕ → Bool) (u : ℕ) (ps : List Participant) (c : Call)
    → is_linked u (connect_all made ps c).0
      ≡ (is_linked u c || contains (remote_ids c.my_user_id ps) u)
unfolding connect_all
connect_all_linked made u [] c = or_false (is_linked u c)
connect_all_linked made u (p ∷ ps) c =
    let first = (connect_to made p.user_id c).0 in
    let me = c.my_user_id in
    let ih =
      subst
        (λ x.
          is_linked u (connect_all made ps first).0
          ≡ (is_linked u first || contains (remote_ids x ps) u))
        (connect_me made p.user_id c) (connect_all_linked made u ps first) in
    ih
    ∙ (rw (connect_linked made u p.user_id c) (
          or_step (is_linked u c) (p.user_id == me) (p.user_id == u)
            (contains (remote_ids me ps) u))
        ∙ ap (λ b. is_linked u c || b)
            (sym (remote_step (p.user_id == me) u p.user_id (remote_ids me ps))))

keep_step :
    (l i e x : Bool) → (e ≡ true → i ≡ true) → (l && (i || not x)) ≡ (l && (i || not (e || x)))
keep_step l true e x h = refl
keep_step l false true x h = absurd (cc (h refl))
keep_step l false false x h = refl

close_step :
    (l i e x : Bool)
    → (e ≡ true → i ≡ false)
    → ((not e && l) && (i || not x)) ≡ (l && (i || not (e || x)))
close_step l i false x h = refl
close_step l true true x h = absurd (cc (h refl))
close_step l false true x h = and_false l

same_member :
    (ids : List ℕ) (u v : ℕ) (b : Bool) → contains ids v ≡ b → (v == u) ≡ true → contains ids u ≡ b
same_member ids u v b h e = subst (λ w. contains ids w ≡ b) ((==_iff v u).0 e) h

none_closed : (l i : Bool) → l ≡ (l && (i || true))
none_closed true true = refl
none_closed true false = refl
none_closed false i = refl

close_linked :
    (u : ℕ) (ids users : List ℕ) (c : Call)
    → is_linked u (close_unless ids users c)
      ≡ (is_linked u c && (contains ids u || not (contains users u)))
unfolding close_unless close_peer
close_linked u ids [] c = none_closed (is_linked u c) (contains ids u)
close_linked u ids (v ∷ users) c = elim (Bool-cases (contains ids v)) [
  | inl e ↦
      rw (close_unless, e)
        (close_linked u ids users c
          ∙ keep_step (is_linked u c) (contains ids u) (v == u) (contains users u)
              (same_member ids u v true e))
  | inr e ↦
      rw (close_unless, e)
        (close_linked u ids users (close_peer v c)
          ∙ (ap (λ b. b && (contains ids u || not (contains users u)))
                (delete_linked u v c.peer_conns)
              ∙ close_step (is_linked u c) (contains ids u) (v == u) (contains users u)
                  (same_member ids u v false e)))
]

absorb : (l r : Bool) → ((l || r) && (r || not (l || r))) ≡ r
absorb true true = refl
absorb true false = refl
absorb false true = refl
absorb false false = refl

adopt_linked :
    (made : ℕ → Bool) (me u : ℕ) (ps : List Participant) (c : Call)
    → c.my_user_id ≡ me
    → let linked = (connect_all made ps c).0 in
      is_linked u (close_unless (remote_ids me ps) (keys linked.peer_conns) linked)
      ≡ contains (remote_ids me ps) u
adopt_linked made me u ps c h =
    let linked = (connect_all made ps c).0 in
    let r = contains (remote_ids me ps) u in
    let l : is_linked u linked ≡ (is_linked u c || r) =
      subst (λ x. is_linked u linked ≡ (is_linked u c || contains (remote_ids x ps) u)) h
        (connect_all_linked made u ps c) in
    close_linked u (remote_ids me ps) (keys linked.peer_conns) linked
    ∙ (ap (λ b. is_linked u linked && (r || not b)) (contains-keys u linked.peer_conns)
        ∙ (ap (λ b. b && (r || not b)) l ∙ absorb (is_linked u c) r))

-- All of the call but its connections.
frame : Call → Call
frame c = record c { peer_conns = []; candidates = [] }

frame-connect_to : (made : ℕ → Bool) (v : ℕ) (c : Call) → frame (connect_to made v c).0 ≡ frame c
unfolding connect_to create_pc frame
frame-connect_to made v c = elim (Bool-cases (v == c.my_user_id || is_linked v c)) [
  | inl e ↦ rw (connect_to, e)
  | inr e ↦ elim (Bool-cases (ltb c.my_user_id v)) [
    | inl o ↦ rw (connect_to, e, o)
    | inr o ↦ rw (connect_to, e, o)
  ]
]

frame-connect_all :
    (made : ℕ → Bool) (ps : List Participant) (c : Call) → frame (connect_all made ps c).0 ≡ frame c
unfolding connect_all
frame-connect_all made [] c = refl
frame-connect_all made (p ∷ ps) c =
    frame-connect_all made ps (connect_to made p.user_id c).0 ∙ frame-connect_to made p.user_id c

frame-close_unless : (ids users : List ℕ) (c : Call) → frame (close_unless ids users c) ≡ frame c
unfolding close_unless close_peer frame
frame-close_unless ids [] c = refl
frame-close_unless ids (v ∷ users) c = elim (Bool-cases (contains ids v)) [
  | inl e ↦ rw (close_unless, e) (frame-close_unless ids users c)
  | inr e ↦ rw (close_unless, e) (frame-close_unless ids users (close_peer v c))
]

-- The call of a user in a channel whose last snapshot has this number and roster, and which has a
-- connection to exactly the other users of it.
abbrev pub Follows : ℕ → ℕ → ℕ → List Participant → Call → Type 0
Follows me ch n ps c =
    (c.my_user_id ≡ me)
    × (c.active_channel_id ≡ some ch)
    × (c.last_voice_seq ≡ n)
    × (c.participants ≡ ps)
    × ((u : ℕ) → is_linked u c ≡ contains (remote_ids me ps) u)

abbrev snapshot : ℕ → ℕ → List Participant → VoiceState
snapshot ch n ps = record { channel_id = ch; seq = some n; participants = ps }

adopt-Follows :
    (made : ℕ → Bool) (me ch n : ℕ) (p : Participant) (ps : List Participant) (c : Call)
    → c.my_user_id ≡ me
    → c.active_channel_id ≡ some ch
    → Follows me ch n (p ∷ ps) (adopt made (snapshot ch n (p ∷ ps)) c).0
unfolding adopt frame
adopt-Follows made me ch n p ps c h a =
    let c1 : Call = record c { last_voice_seq = n; participants = p ∷ ps } in
    let linked = (connect_all made (p ∷ ps) c1).0 in
    let kept = close_unless (remote_ids c.my_user_id (p ∷ ps)) (keys linked.peer_conns) linked in
    let f : frame kept ≡ frame c1 =
      frame-close_unless (remote_ids c.my_user_id (p ∷ ps)) (keys linked.peer_conns) linked
      ∙ frame-connect_all made (p ∷ ps) c1 in
    (
      ap (λ x. x.my_user_id) f ∙ h,
      ap (λ x. x.active_channel_id) f ∙ a,
      ap (λ x. x.last_voice_seq) f,
      ap (λ x. x.participants) f,
      λ u.
          subst
            (λ x.
              is_linked u (close_unless (remote_ids x (p ∷ ps)) (keys linked.peer_conns) linked)
              ≡ contains (remote_ids me (p ∷ ps)) u)
            (sym h) (adopt_linked made me u (p ∷ ps) c1 h),
    )

-- The number and the participants of a snapshot, of which there is at least one.
abbrev pub Arrival : Type 0
Arrival = ℕ × Participant × List Participant

abbrev pub FollowsArrival : ℕ → ℕ → Arrival → Call → Type 0
FollowsArrival me ch x c = Follows me ch x.0 (x.1 ∷ x.2) c

-- The snapshots of the channel arrive in this order.
unfoldable pub on_all : (ℕ → Bool) → ℕ → List Arrival → Call → Call
unfolding on_voice_state
on_all made ch [] c = c
on_all made ch (x ∷ xs) c =
    on_all made ch xs (on_voice_state made (snapshot ch x.0 (x.1 ∷ x.2)) c).0

-- The guard of `onVoiceState`.
abbrev ignores : ℕ → ℕ → Call → Bool
ignores ch n c = not (same_id c.active_channel_id (some ch)) || leb n c.last_voice_seq

fresh_taken :
    (made : ℕ → Bool) (me ch : ℕ) (x : Arrival) (c : Call)
    → c.my_user_id ≡ me
    → c.active_channel_id ≡ some ch
    → c.last_voice_seq < x.0
    → FollowsArrival me ch x (on_voice_state made (snapshot ch x.0 (x.1 ∷ x.2)) c).0
unfolding on_voice_state
fresh_taken made me ch x c h a l =
    let fresh : leb x.0 c.last_voice_seq ≡ false = ground arith in
    let taken : ignores ch x.0 c ≡ false = rw (a, ==_refl ch, fresh) in
    rw (on_voice_state, taken) (adopt-Follows made me ch x.0 x.1 x.2 c h a)

stale_ignored :
    (made : ℕ → Bool) (ch : ℕ) (x : Arrival) (c : Call)
    → c.active_channel_id ≡ some ch
    → x.0 ≤ c.last_voice_seq
    → (on_voice_state made (snapshot ch x.0 (x.1 ∷ x.2)) c).0 ≡ c
unfolding on_voice_state
stale_ignored made ch x c a l =
    let stale : leb x.0 c.last_voice_seq ≡ true = ground arith in
    let ignored : ignores ch x.0 c ≡ true = rw (a, ==_refl ch, stale) in
    rw (on_voice_state, ignored)

-- The newest one of some snapshots, the first one included.
newest : Arrival → List Arrival → Arrival
newest x [] = x
newest x (y ∷ ys) = newest (if leb y.0 x.0 then x else y) ys

newest_older : (x : Arrival) (ys : List Arrival) → x.0 ≤ (newest x ys).0
unfolding newest
newest_older x [] = omega arith
newest_older x (y ∷ ys) = elim (Bool-cases (leb y.0 x.0)) [
  | inl e ↦ rw (newest, e) (newest_older x ys)
  | inr e ↦ rw (newest, e) (let h = newest_older y ys in ground arith)
]

newest_kept :
    (x y : Arrival) (ys : List Arrival) → leb y.0 x.0 ≡ true → newest x (y ∷ ys) ≡ newest x ys
unfolding newest
newest_kept x y ys e = rw (newest, e)

newest_moved :
    (x y : Arrival) (ys : List Arrival) → leb y.0 x.0 ≡ false → newest x (y ∷ ys) ≡ newest y ys
unfolding newest
newest_moved x y ys e = rw (newest, e)

newest-All : (x : Arrival) (ys : List Arrival) → All (λ y. y.0 ≤ (newest x ys).0) ys
newest-All x [] = tt
newest-All x (y ∷ ys) = elim (Bool-cases (leb y.0 x.0)) [
  | inl e ↦
      subst (λ z. All (λ w. w.0 ≤ z.0) (y ∷ ys)) (sym (newest_kept x y ys e))
        (let h = newest_older x ys in (ground arith, newest-All x ys))
  | inr e ↦
      subst (λ z. All (λ w. w.0 ≤ z.0) (y ∷ ys)) (sym (newest_moved x y ys e))
        (newest_older y ys, newest-All y ys)
]

insert_among :
    (x y z : Arrival) (ys : List Arrival) (i : ℕ)
    → get_elem? (x ∷ ys) i ≡ some z
    → (j : ℕ) × (get_elem? (x ∷ y ∷ ys) j ≡ some z)
insert_among x y z ys zero h = (0, h)
insert_among x y z ys (suc i) h = (suc (suc i), h)

newest_among :
    (x : Arrival) (ys : List Arrival) → (i : ℕ) × (get_elem? (x ∷ ys) i ≡ some (newest x ys))
unfolding newest
newest_among x [] = (0, refl)
newest_among x (y ∷ ys) = elim (Bool-cases (leb y.0 x.0)) [
  | inl e ↦
      let ih = newest_among x ys in
      let at = insert_among x y (newest x ys) ys ih.0 ih.1 in
      (at.0, at.1 ∙ ap (λ z. some z) (sym (newest_kept x y ys e)))
  | inr e ↦
      let ih = newest_among y ys in
      (suc (ih.0), ih.1 ∙ ap (λ z. some z) (sym (newest_moved x y ys e)))
]

on_all-newest :
    (made : ℕ → Bool) (me ch : ℕ) (x : Arrival) (ys : List Arrival) (c : Call)
    → FollowsArrival me ch x c
    → FollowsArrival me ch (newest x ys) (on_all made ch ys c)
unfolding newest on_all
on_all-newest made me ch x [] c f = f
on_all-newest made me ch x (y ∷ ys) c f = elim (Bool-cases (leb y.0 x.0)) [
  | inl e ↦
      let old : y.0 ≤ c.last_voice_seq = let g = f.2 in ground arith in
      rw (newest, e, on_all, stale_ignored made ch y c f.1 old) (on_all-newest made me ch x ys c f)
  | inr e ↦
      let new : c.last_voice_seq < y.0 = let g = f.2 in ground arith in
      rw (newest, e, on_all)
        (on_all-newest made me ch y ys (on_voice_state made (snapshot ch y.0 (y.1 ∷ y.2)) c).0
          (fresh_taken made me ch y c f.0 f.1 new))
]

-- Whatever order the snapshots of the call's channel arrive in, each with a participant and the
-- first one newer than what is known, afterwards the roster is that of the newest one among them,
-- and the call has a connection to exactly the other users of that roster.
pub on_all-Follows :
    (made : ℕ → Bool) (x : Arrival) (ys : List Arrival) (ch : ℕ) (c : Call)
    → c.active_channel_id ≡ some ch
    → c.last_voice_seq < x.0
    → (z : Arrival) × ((i : ℕ) × (get_elem? (x ∷ ys) i ≡ some z))
      × All (λ y. y.0 ≤ z.0) (x ∷ ys)
      × FollowsArrival c.my_user_id ch z (on_all made ch (x ∷ ys) c)
unfolding on_all
on_all-Follows made x ys ch c a l = (
  newest x ys,
  newest_among x ys,
  (newest_older x ys, newest-All x ys),
  on_all-newest made c.my_user_id ch x ys (on_voice_state made (snapshot ch x.0 (x.1 ∷ x.2)) c).0
      (fresh_taken made c.my_user_id ch x c refl a l),
)
