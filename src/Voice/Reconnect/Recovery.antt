-- ===== src/Voice/Reconnect/Recovery.antt =====
-- The two sides of a connection share the work, and a peer that stays broken is given up.
use rivendell.Base.{
  ℕ, ◌+◌, ◌≤◌, ◌<◌, ◌≡◌, refl, sym, ap₂, subst, ◌∙◌, ◌≢◌, inl, inr, Bool, false, not, none, some,
  List, [], ◌∷◌, arith, if◌then◌else◌, Option-cases,
}
use rivendell.Voice.Reconnect.{
  Connection, Peer, Happening, changes, fires, happen, happen_all, Plan, clear, restart, drop,
  no_action, reconnect_plan, is_offerer, polite_for, effective_connection_state, effective,
  is_settled, apply_reconnect_plan, timer_fires, do_ice_restart, restart_outcome, max_ice_restarts,
  answerer_fail_timeout_ms, ice_restart, Task,
}
use rivendell.Voice.Reconnect.{
  clear, restart, drop, no_action, Plan, Task, run_plan, ice_restart_retry_ms, do_ice_restart,
  restart_outcome, timer_fires,
}
use rivendell.Voice.Reconnect.{
  Outcome, recovered, gone, give_up, restarted, act_on, ice_restart_retry_ms, do_ice_restart,
  restart_outcome, timer_fires,
}
use rivendell.Base.{ap₂, ◌∙◌, Option-cases, inl, inr}

-- Of two users exactly one offers, the other is the polite one; and when both see the connection
-- fail, the one restarts it at once and the other waits to drop it.
pub one_side_offers :
    (a b : ℕ)
    → a ≢ b
    → (is_offerer b a ≡ not (is_offerer a b))
      × (polite_for a b ≡ not (is_offerer a b))
      × (reconnect_plan Connection.failed (is_offerer a b)
          ≡ (if is_offerer a b then restart 0 else drop answerer_fail_timeout_ms))
unfolding is_offerer polite_for reconnect_plan
one_side_offers a b h = ground arith

-- No happening of the list settles the connection.
unfoldable pub NeverSettles : List Happening → Type 0
NeverSettles [] = Unit
NeverSettles (changes c i ∷ hs) =
    (is_settled (effective_connection_state c i) ≡ false) × NeverSettles hs
NeverSettles (fires r o ∷ hs) = NeverSettles hs

abbrev pub fired : List Happening → ℕ
fired [] = 0
fired (changes c i ∷ hs) = fired hs
fired (fires r o ∷ hs) = fired hs + 1

-- A restart is under way: its timer is armed, on a connection that is not settled.
pub record IsRestarting (p : Peer) : Type 0 where
  pub broken : is_settled (effective p) ≡ false
  pub delay : ℕ
  pub armed : p.timer ≡ some (delay, ice_restart)
  pub few : p.restarts ≤ max_ice_restarts

-- A plan that does not clear leaves an armed timer alone.
run_plan_armed :
    (plan : Plan) (p : Peer) (t : ℕ × Task) → plan ≢ clear → p.timer ≡ some t → run_plan plan p ≡ p
run_plan_armed clear p t n h = absurd (n refl)
run_plan_armed no_action p t n h = refl
run_plan_armed (restart d) p t n h = rw h
run_plan_armed (drop d) p t n h = rw h

reconnect_plan_broken :
    (c : Connection) (offers : Bool) → is_settled c ≡ false → reconnect_plan c offers ≢ clear
unfolding reconnect_plan
reconnect_plan_broken c offers h = ground arith

changes-IsRestarting :
    (p : Peer) (c i : Connection) (offers : Bool)
    → IsRestarting p
    → is_settled (effective_connection_state c i) ≡ false
    → let next = apply_reconnect_plan offers (record p { connection = c; ice_connection = i }) in
      IsRestarting next × (next.restarts ≡ p.restarts)
unfolding apply_reconnect_plan
changes-IsRestarting p c i offers h s =
    subst (λ q. IsRestarting q × (q.restarts ≡ p.restarts))
      (sym (
        run_plan_armed (reconnect_plan (effective_connection_state c i) offers)
          (record p { connection = c; ice_connection = i }) (h.delay, ice_restart)
          (reconnect_plan_broken (effective_connection_state c i) offers s) h.armed))
      (record { broken = s; delay = h.delay; armed = h.armed; few = h.few }, refl)

broken_outcome :
    (c : Connection) (n m : ℕ) (r : Bool)
    → is_settled c ≡ false
    → (restart_outcome c n m r ≢ recovered) × (restart_outcome c n m r ≡ restarted → n < m)
unfolding restart_outcome
broken_outcome c n m r h = ground arith

act_on_alive :
    (u : Outcome) (p q : Peer) (offers o : Bool)
    → u ≢ recovered
    → p.timer ≡ none
    → (act_on u offers o p).0 ≡ some q
    → (u ≡ restarted)
      × (q.connection ≡ p.connection)
      × (q.ice_connection ≡ p.ice_connection)
      × (q.restarts ≡ p.restarts + 1)
      × (q.timer ≡ some (ice_restart_retry_ms, ice_restart))
act_on_alive recovered p q offers o n t e = absurd (n refl)
act_on_alive gone p q offers o n t e = cc
act_on_alive give_up p q offers o n t e = cc
act_on_alive restarted p q offers o n t e = ground arith

fires-IsRestarting :
    (p q : Peer) (offers r o : Bool)
    → IsRestarting p
    → happen offers p (fires r o) ≡ some q
    → IsRestarting q × (q.restarts ≡ p.restarts + 1)
unfolding happen timer_fires do_ice_restart
fires-IsRestarting p q offers r o h e =
    let u = restart_outcome (effective p) p.restarts max_ice_restarts r in
    let f : (act_on u offers o (record p { timer = none })).0 ≡ some q = rw h.armed at e in
    let n = broken_outcome (effective p) p.restarts max_ice_restarts r h.broken in
    let a = act_on_alive u (record p { timer = none }) q offers o n.0 refl f in
    (
      record {
        broken = ap₂ (λ c i. is_settled (effective_connection_state c i)) a.1 a.2 ∙ h.broken;
        delay = ice_restart_retry_ms;
        armed = a.4;
        few = omega (arith, a.3, n.1 a.0);
      },
      a.3,
    )

all_gone : (offers : Bool) (hs : List Happening) → happen_all offers none hs ≡ none
unfolding happen_all
all_gone offers [] = refl
all_gone offers (h ∷ hs) = refl

-- While a peer is alive, every firing has cost it a restart.
happen_all_alive :
    (p q : Peer) (offers : Bool) (hs : List Happening)
    → IsRestarting p
    → NeverSettles hs
    → happen_all offers (some p) hs ≡ some q
    → p.restarts + fired hs ≤ max_ice_restarts
unfolding happen_all happen NeverSettles
happen_all_alive p q offers [] h s e = omega (arith, h.few)
happen_all_alive p q offers (changes c i ∷ hs) h s e =
    let next = apply_reconnect_plan offers (record p { connection = c; ice_connection = i }) in
    let step = changes-IsRestarting p c i offers h s.0 in
    omega (arith, step.1, happen_all_alive next q offers hs step.0 s.1 e)
happen_all_alive p q offers (fires r o ∷ hs) h s e =
    elim (Option-cases (happen offers p (fires r o))) [
      | inl over ↦ cc (all_gone offers hs, subst (λ m. happen_all offers m hs ≡ some q) over e)
      | inr alive ↦
          let step = fires-IsRestarting p alive.0 offers r o h alive.1 in
          omega (
            arith,
            step.1,
            happen_all_alive alive.0 q offers hs step.0 s
                (subst (λ m. happen_all offers m hs ≡ some q) alive.1 e),
          )
    ]

-- A peer whose restart is under way and whose connection never settles is closed by the firing
-- that follows its fourth restart, at the latest, whatever its states do in between.
pub broken_peer_closes :
    (p : Peer) (offers : Bool) (hs : List Happening)
    → IsRestarting p
    → NeverSettles hs
    → max_ice_restarts < p.restarts + fired hs
    → happen_all offers (some p) hs ≡ none
broken_peer_closes p offers hs h s n = elim (Option-cases (happen_all offers (some p) hs)) [
  | inl e ↦ e
  | inr a ↦ absurd (omega (arith, n, happen_all_alive p a.0 offers hs h s a.1))
]
