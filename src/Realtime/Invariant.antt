-- ===== src/Realtime/Invariant.antt =====
-- At every moment there is one live socket at most, and a socket or a retry.
use rivendell.Base.{
  ℕ, ◌≤◌, ◌≡◌, refl, sym, ap, subst, ◌∙◌, inl, inr, Bool, true, false, not, ◌&&◌, Option, none,
  some, List, [], ◌∷◌, arith, ◌==◌, if◌then◌else◌, Bool-cases, is_some, Option-cases, same_id,
  contains,
}
use rivendell.IdMap.Laws.{get-put}
use rivendell.Realtime.{
  ReadyState, Socket, Client, Output, is_closed, ready_at, live_at, on_close_at, socket,
  close_ready, retry_later, connect, cancel_retry, reconnect_now, on_resume, socket_opens,
  socket_closes, socket_errors, close_client, send_data, Input, step, without, timer_fires, opens,
  closes, errors, frame, hides, resumes, close_call, send_call, attempt, silence, connecting,
  set_ready, cancel, hang_up,
}
use rivendell.IdMap.{IdMap}

-- The current socket is not closed.
abbrev pub socket_up : Client → Bool
socket_up c = elim c.ws [ none ↦ false | some i ↦ not (is_closed (ready_at i c.sockets)) ]

abbrev pub pending : Option ℕ → List ℕ
pending none = []
pending (some t) = t ∷ []

pub record IsValid (c : Client) : Type 0 where
  -- A retry is pending exactly while the client wants a connection and its socket is down.
  pub retrying : is_some c.retry_timer ≡ (not c.closed_by_us && not (socket_up c))
  -- No other timer is.
  pub one_timer : c.timers ≡ pending c.retry_timer
  pub backoff_low : 500 ≤ c.backoff
  pub backoff_high : c.backoff ≤ 15000
  -- Only the current socket has its handlers.
  pub one_live : (i : ℕ) → live_at i c.sockets ≡ true → c.ws ≡ some i
  -- Until the client is closed, the current socket's end is noticed.
  pub noticed : (i : ℕ) → c.ws ≡ some i → c.closed_by_us ≡ false → on_close_at i c.sockets ≡ true

-- A client without timers, ready for an attempt.
pub record IsIdle (c : Client) : Type 0 where
  pub low : 500 ≤ c.backoff
  pub high : c.backoff ≤ 15000
  pub no_timers : c.timers ≡ []
  pub no_retry : c.retry_timer ≡ none
  pub wants : c.closed_by_us ≡ false
  pub live : (i : ℕ) → live_at i c.sockets ≡ true → c.ws ≡ some i

live-silence :
    (ws : Option ℕ) (m : IdMap Socket) (i : ℕ)
    → (live_at i m ≡ true → ws ≡ some i)
    → live_at i (silence ws m) ≡ true
    → ⊥
live-silence none m i live h = cc (live h)
live-silence (some d) m i live h =
    ground (arith, get-put d i (socket (close_ready (ready_at d m)) false false) m, live)

attempt-IsValid : (made : Bool) (c : Client) → IsIdle c → IsValid (attempt made c).0
unfolding attempt
attempt-IsValid true c h = record {
  retrying =
      ground (arith, get-put c.next c.next (socket connecting true true) (silence c.ws c.sockets));
  one_timer = ground arith;
  backoff_low = h.low;
  backoff_high = h.high;
  one_live = λ i l. ground (
    arith,
    get-put c.next i (socket connecting true true) (silence c.ws c.sockets),
    live-silence c.ws c.sockets i (h.live i),
  );
  noticed = λ i e w.
      ground (arith, get-put c.next i (socket connecting true true) (silence c.ws c.sockets));
}
attempt-IsValid false c h = record {
  retrying = ground arith;
  one_timer = ground arith;
  backoff_low = ground arith;
  backoff_high = ground arith;
  one_live = λ i l. absurd (live-silence c.ws c.sockets i (h.live i) (ground arith));
  noticed = λ i e w. ground arith;
}

if_false {ℓ} : {A : Type ℓ} (b : Bool) (x y : A) → b ≡ false → (if b then x else y) ≡ y
if_false b x y h = rw h

pub connect-IsValid :
    (made : Bool) (c : Client)
    → IsIdle (record c { retry_timer = none })
    → IsValid (connect made c).0
unfolding connect
connect-IsValid made c h =
    subst (λ (r : Client × List Output). IsValid r.0) (sym (if_false c.closed_by_us _ _ h.wants))
      (attempt-IsValid made (record c { retry_timer = none }) h)

-- A pending list loses its timer.
without-pending :
    (r : Option ℕ) (t : ℕ) → contains (pending r) t ≡ true → without t (pending r) ≡ []
without-pending none t h = cc
without-pending (some u) t h = ground arith

is_some_of_pending : (r : Option ℕ) (t : ℕ) → contains (pending r) t ≡ true → is_some r ≡ true
is_some_of_pending none t h = cc
is_some_of_pending (some u) t h = refl

wants_of_retry :
    (c : Client)
    → IsValid c
    → is_some c.retry_timer ≡ true
    → (c.closed_by_us ≡ false) × (socket_up c ≡ false)
wants_of_retry c v h = let e = v.retrying in ground arith

fired-IsIdle :
    (c : Client) (t : ℕ)
    → IsValid c
    → contains c.timers t ≡ true
    → IsIdle (record c { retry_timer = none; timers = without t c.timers })
fired-IsIdle c t v h =
    let here : contains (pending c.retry_timer) t ≡ true =
      subst (λ ts. contains ts t ≡ true) v.one_timer h in
    record {
      low = v.backoff_low;
      high = v.backoff_high;
      no_timers = ap (without t) v.one_timer ∙ without-pending c.retry_timer t here;
      no_retry = refl;
      wants = (wants_of_retry c v (is_some_of_pending c.retry_timer t here)).0;
      live = v.one_live;
    }

cancel-pending : (r : Option ℕ) → cancel r (pending r) ≡ []
cancel-pending none = refl
cancel-pending (some t) = ground arith

-- Either branch of a test.
by_cases :
    (P : Client → Type 0) (b : Bool) (x y : Client × List Output)
    → (b ≡ true → P x.0)
    → (b ≡ false → P y.0)
    → P (if b then x else y).0
by_cases P true x y t f = t refl
by_cases P false x y t f = f refl

reconnect_now-IsValid : (made : Bool) (c : Client) → IsValid c → IsValid (reconnect_now made c).0
unfolding reconnect_now
reconnect_now-IsValid made c v =
    by_cases IsValid c.closed_by_us _ _ (λ e. v)
      (λ e.
        connect-IsValid made (record (cancel_retry c) { backoff = 500 })
          (record {
            low = omega arith;
            high = omega arith;
            no_timers = ap (cancel c.retry_timer) v.one_timer ∙ cancel-pending c.retry_timer;
            no_retry = refl;
            wants = e;
            live = v.one_live;
          }))

live-set_ready :
    (i j : ℕ) (r : ReadyState) (m : IdMap Socket) → live_at j (set_ready i r m) ≡ live_at j m
unfolding set_ready
live-set_ready i j r m = ground (arith, get-put i j (socket r (live_at i m) (on_close_at i m)) m)

on_close-set_ready :
    (i j : ℕ) (r : ReadyState) (m : IdMap Socket)
    → on_close_at j (set_ready i r m) ≡ on_close_at j m
unfolding set_ready
on_close-set_ready i j r m =
    ground (arith, get-put i j (socket r (live_at i m) (on_close_at i m)) m)

ready-set_ready :
    (i j : ℕ) (r : ReadyState) (m : IdMap Socket)
    → ready_at j (set_ready i r m) ≡ (if i == j then r else ready_at j m)
unfolding set_ready
ready-set_ready i j r m = ground (arith, get-put i j (socket r (live_at i m) (on_close_at i m)) m)

up-set_ready :
    (i : ℕ) (r : ReadyState) (c : Client)
    → is_closed r ≡ is_closed (ready_at i c.sockets)
    → socket_up (record c { sockets = set_ready i r c.sockets }) ≡ socket_up c
up-set_ready i r c h = elim (Option-cases c.ws) [
  | inl e ↦ rw e
  | inr f ↦ rw f.1 (ground (arith, ready-set_ready i f.0 r c.sockets))
]

set_ready-IsValid :
    (i : ℕ) (r : ReadyState) (c : Client)
    → is_closed r ≡ is_closed (ready_at i c.sockets)
    → IsValid c
    → IsValid (record c { sockets = set_ready i r c.sockets })
set_ready-IsValid i r c h v = record {
  retrying = v.retrying ∙ ap (λ b. not c.closed_by_us && not b) (sym (up-set_ready i r c h));
  one_timer = v.one_timer;
  backoff_low = v.backoff_low;
  backoff_high = v.backoff_high;
  one_live = λ j l. v.one_live j (sym (live-set_ready i j r c.sockets) ∙ l);
  noticed = λ j e w. on_close-set_ready i j r c.sockets ∙ v.noticed j e w;
}

socket_opens-IsValid : (i : ℕ) (c : Client) → IsValid c → IsValid (socket_opens i c).0
unfolding socket_opens
socket_opens-IsValid i c v =
    by_cases IsValid (is_closed (ready_at i c.sockets)) _ _ (λ e. v)
      (λ e.
        let w = set_ready-IsValid i ReadyState.opened c (sym e) v in
        by_cases IsValid (live_at i c.sockets) _ _
          (λ l. record {
            retrying = w.retrying;
            one_timer = w.one_timer;
            backoff_low = omega arith;
            backoff_high = omega arith;
            one_live = w.one_live;
            noticed = w.noticed;
          })
          (λ l. w))

close_ready_closed : (r : ReadyState) → is_closed (close_ready r) ≡ is_closed r
close_ready_closed r = ground arith

socket_errors-IsValid : (i : ℕ) (c : Client) → IsValid c → IsValid (socket_errors i c).0
unfolding socket_errors
socket_errors-IsValid i c v =
    by_cases IsValid (live_at i c.sockets) _ _
      (λ l. set_ready-IsValid i _ c (close_ready_closed (ready_at i c.sockets)) v) (λ l. v)

no_retry_of_up : (c : Client) → IsValid c → socket_up c ≡ true → c.retry_timer ≡ none
no_retry_of_up c v u = let e = v.retrying in ground arith

down_ws :
    (i : ℕ) (c : Client)
    → c.ws ≡ some i
    → is_closed (ready_at i c.sockets) ≡ false
    → socket_up c ≡ true
down_ws i c w e = rw w (ground arith)

down_after :
    (i : ℕ) (c : Client)
    → c.ws ≡ some i
    → socket_up (record c { sockets = set_ready i ReadyState.closed c.sockets }) ≡ false
down_after i c w = rw w (ground (arith, ready-set_ready i i ReadyState.closed c.sockets))

-- The current socket ends: a retry is due, unless the client is closed.
lost-IsValid :
    (i : ℕ) (c : Client)
    → is_closed (ready_at i c.sockets) ≡ false
    → c.ws ≡ some i
    → IsValid c
    → IsValid (retry_later (record c { sockets = set_ready i ReadyState.closed c.sockets }))
unfolding retry_later
lost-IsValid i c e w v =
    let r = no_retry_of_up c v (down_ws i c w e) in
    let d = down_after i c w in
    record {
      retrying = ground arith;
      one_timer = let o = v.one_timer in ground arith;
      backoff_low = let o = v.backoff_low in ground arith;
      backoff_high = let o = v.backoff_high in ground arith;
      one_live =
          λ j l. ground (arith, live-set_ready i j ReadyState.closed c.sockets, v.one_live j);
      noticed =
          λ j n m. ground (arith, on_close-set_ready i j ReadyState.closed c.sockets, v.noticed j);
    }

ended_retry :
    (i w : ℕ) (c : Client)
    → on_close_at i c.sockets && same_id (some i) c.ws ≡ false
    → c.ws ≡ some w
    → IsValid c
    → is_some c.retry_timer ≡ (
        not c.closed_by_us
        && not (socket_up (record c { sockets = set_ready i ReadyState.closed c.sockets })))
ended_retry i w c f e v = elim (Bool-cases c.closed_by_us) [
  | inl t ↦ let r = v.retrying in ground arith
  | inr t ↦
      let r = v.retrying in
      ground (arith, ready-set_ready i w ReadyState.closed c.sockets, v.noticed w)
]

-- Any other socket ends, or the current one once the client is closed.
ended-IsValid :
    (i : ℕ) (c : Client)
    → on_close_at i c.sockets && same_id (some i) c.ws ≡ false
    → IsValid c
    → IsValid (record c { sockets = set_ready i ReadyState.closed c.sockets })
ended-IsValid i c f v = record {
  retrying = elim (Option-cases c.ws) [
    | inl e ↦ rw e (let o = v.retrying in rw e at o)
    | inr w ↦ ended_retry i w.0 c f w.1 v
  ];
  one_timer = v.one_timer;
  backoff_low = v.backoff_low;
  backoff_high = v.backoff_high;
  one_live = λ j l. v.one_live j (sym (live-set_ready i j ReadyState.closed c.sockets) ∙ l);
  noticed = λ j e w. on_close-set_ready i j ReadyState.closed c.sockets ∙ v.noticed j e w;
}

socket_closes-IsValid : (i : ℕ) (c : Client) → IsValid c → IsValid (socket_closes i c).0
unfolding socket_closes
socket_closes-IsValid i c v =
    by_cases IsValid (is_closed (ready_at i c.sockets)) _ _ (λ e. v)
      (λ e.
        by_cases IsValid (on_close_at i c.sockets && same_id (some i) c.ws) _ _
          (λ t. lost-IsValid i c e (ground arith) v) (λ f. ended-IsValid i c f v))

live-hang_up : (ws : Option ℕ) (m : IdMap Socket) (j : ℕ) → live_at j (hang_up ws m) ≡ live_at j m
live-hang_up none m j = refl
live-hang_up (some i) m j =
    ground (arith, get-put i j (socket (close_ready (ready_at i m)) (live_at i m) false) m)

close_client-IsValid : (c : Client) → IsValid c → IsValid (close_client c).0
unfolding close_client
close_client-IsValid c v = record {
  retrying = refl;
  one_timer = ap (cancel c.retry_timer) v.one_timer ∙ cancel-pending c.retry_timer;
  backoff_low = v.backoff_low;
  backoff_high = v.backoff_high;
  one_live = λ j l. v.one_live j (sym (live-hang_up c.ws c.sockets j) ∙ l);
  noticed = λ j e w. cc;
}

on_resume-IsValid :
    (now : ℕ) (made : Bool) (c : Client) → IsValid c → IsValid (on_resume now made c).0
unfolding on_resume
on_resume-IsValid now made c v =
    let shown : IsValid (record c { hidden_at = 0 }) = record {
      retrying = v.retrying;
      one_timer = v.one_timer;
      backoff_low = v.backoff_low;
      backoff_high = v.backoff_high;
      one_live = v.one_live;
      noticed = v.noticed;
    } in
    by_cases IsValid c.closed_by_us _ _ (λ e. v)
      (λ e.
        by_cases IsValid _ _ _ (λ t. reconnect_now-IsValid made (record c { hidden_at = 0 }) shown)
          (λ f. shown))

-- Whatever the browser does next, the client stays valid: it has at most one socket with handlers,
-- its current one; while it wants a connection it has an unclosed socket or exactly one pending
-- retry, never both and never neither; and the backoff stays between 0.5 and 15 seconds.
pub step-IsValid : (c : Client) (e : Input) → IsValid c → IsValid (step c e).0
unfolding step send_data
step-IsValid c (timer_fires t made) v =
    by_cases IsValid (contains c.timers t) _ _
      (λ e. connect-IsValid made (record c { timers = without t c.timers }) (fired-IsIdle c t v e))
      (λ e. v)
step-IsValid c (opens i) v = socket_opens-IsValid i c v
step-IsValid c (closes i) v = socket_closes-IsValid i c v
step-IsValid c (errors i) v = socket_errors-IsValid i c v
step-IsValid c (frame i none) v = v
step-IsValid c (frame i (some e)) v = v
step-IsValid c (hides now) v =
    by_cases IsValid c.listening _ _
      (λ e. record {
        retrying = v.retrying;
        one_timer = v.one_timer;
        backoff_low = v.backoff_low;
        backoff_high = v.backoff_high;
        one_live = v.one_live;
        noticed = v.noticed;
      })
      (λ e. v)
step-IsValid c (resumes now made) v =
    by_cases IsValid c.listening _ _ (λ e. on_resume-IsValid now made c v) (λ e. v)
step-IsValid c close_call v = close_client-IsValid c v
step-IsValid c (send_call e) v = v
