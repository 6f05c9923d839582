-- ===== src/Realtime.antt =====
-- web/static/ws.js: `connectRealtime`, the reconnecting client, as a state machine over the events
-- of the browser. The closure's variables and what the browser holds for it (its sockets and its
-- pending timers) are one record.
pub mod Invariant
use rivendell.Base.{
  ℕ, zero, suc, ◌+◌, ◌-◌, ◌*◌, ◌/◌, ◌%◌, ◌^◌, ◌≤◌, ◌<◌, min, max, String, ◌≡◌, refl, sym, ap, ap₂,
  subst, subst₂, ◌∙◌, ◌≢◌, ◌↔◌, ◌⊎◌, inl, inr, Bool, true, false, not, ◌&&◌, ◌||◌, Option, none,
  some, List, [], ◌∷◌, ◌++◌, map, arith, ltb, leb, ◌==◌, if◌then◌else◌, ltb→lt, leb→le, ==_iff,
  ==_refl, Bool-cases, get_or, or_else, is_some, Option-cases, same_id, same_id_refl, matches_id,
  length, get_elem?, filter, any, find, All, length-append, contains, append_nil, append_assoc,
}
use rivendell.IdMap
use rivendell.IdMap.{IdMap}

pub data ReadyState : Type 0 where
  connecting opened closing closed : ReadyState

-- `live` says that onopen, onmessage and onerror are set, `on_close` that onclose is.
pub record Socket : Type 0 where
  pub ready : ReadyState
  pub live : Bool
  pub on_close : Bool

-- `next` is the browser's next handle. A `hidden_at` of 0 means that the page is visible.
pub record Client : Type 0 where
  pub sockets : IdMap Socket
  pub timers : List ℕ
  pub next : ℕ
  pub ws : Option ℕ
  pub backoff : ℕ
  pub closed_by_us : Bool
  pub hidden_at : ℕ
  pub retry_timer : Option ℕ
  pub listening : Bool

pub data Output : Type 0 where
  status : Bool → Output
  event : ℕ → Output
  sent : ℕ → Output

abbrev pub resume_threshold_ms : ℕ
resume_threshold_ms = 15000

abbrev pub is_open : ReadyState → Bool
is_open ReadyState.opened = true
is_open _ = false

abbrev pub is_closed : ReadyState → Bool
is_closed ReadyState.closed = true
is_closed _ = false

unfoldable pub should_reconnect_on_resume : ReadyState → ℕ → ℕ → Bool
should_reconnect_on_resume ready hidden_ms threshold =
    if not (is_open ready) then true else ltb threshold hidden_ms

abbrev pub ready_at : ℕ → IdMap Socket → ReadyState
ready_at i m = elim (IdMap.get i m) [ none ↦ ReadyState.closed | some s ↦ s.ready ]

abbrev pub live_at : ℕ → IdMap Socket → Bool
live_at i m = elim (IdMap.get i m) [ none ↦ false | some s ↦ s.live ]

abbrev pub on_close_at : ℕ → IdMap Socket → Bool
on_close_at i m = elim (IdMap.get i m) [ none ↦ false | some s ↦ s.on_close ]

-- `close()` starts the closing handshake, unless the socket is closed.
abbrev pub close_ready : ReadyState → ReadyState
close_ready ReadyState.closed = ReadyState.closed
close_ready _ = ReadyState.closing

abbrev pub socket : ReadyState → Bool → Bool → Socket
socket r l o = record { ready = r; live = l; on_close = o }

-- The browser moves a socket to another state; its handlers stay.
unfoldable pub set_ready : ℕ → ReadyState → IdMap Socket → IdMap Socket
set_ready i r m = IdMap.put i (socket r (live_at i m) (on_close_at i m)) m

unfoldable pub retry_later : Client → Client
retry_later c = if c.closed_by_us then c else record c {
  retry_timer = some c.next;
  timers = c.next ∷ c.timers;
  next = c.next + 1;
  backoff = min (c.backoff * 2) 15000;
}

-- An existing socket loses its handlers and is closed.
abbrev pub silence : Option ℕ → IdMap Socket → IdMap Socket
silence none m = m
silence (some dead) m = IdMap.put dead (socket (close_ready (ready_at dead m)) false false) m

abbrev pub teardown : Client → Client
teardown c = record c { ws = none; sockets = silence c.ws c.sockets }

-- `made` says whether the WebSocket constructor returns or throws.
unfoldable pub attempt : Bool → Client → Client × List Output
unfolding retry_later
attempt true c =
    let t = teardown c in
    (
      record t {
        ws = some t.next;
        sockets = IdMap.put t.next (socket connecting true true) t.sockets;
        next = t.next + 1;
      },
      [],
    )
attempt false c = (retry_later (teardown c), status false ∷ [])

unfoldable pub connect : Bool → Client → Client × List Output
unfolding attempt
connect made c =
    let tried = attempt made (record c { retry_timer = none }) in
    if c.closed_by_us then (c, []) else tried

abbrev pub without : ℕ → List ℕ → List ℕ
without t = filter (λ u. not (u == t))

abbrev pub cancel : Option ℕ → List ℕ → List ℕ
cancel none ts = ts
cancel (some t) ts = without t ts

abbrev pub cancel_retry : Client → Client
cancel_retry c = record c { retry_timer = none; timers = cancel c.retry_timer c.timers }

unfoldable pub reconnect_now : Bool → Client → Client × List Output
unfolding connect
reconnect_now made c =
    if c.closed_by_us then (c, []) else connect made (record (cancel_retry c) { backoff = 500 })

unfoldable pub on_resume : ℕ → Bool → Client → Client × List Output
unfolding reconnect_now should_reconnect_on_resume
on_resume now made c =
    let hidden_ms = if c.hidden_at == 0 then 0 else now - c.hidden_at in
    let ready : ReadyState = elim c.ws [
      | none ↦ ReadyState.closed
      | some i ↦ ready_at i c.sockets
    ] in
    let shown = record c { hidden_at = 0 } in
    if c.closed_by_us
    then (c, [])
    else if should_reconnect_on_resume ready hidden_ms resume_threshold_ms
    then reconnect_now made shown
    else (shown, [])

-- What the browser or the application does next. A frame carries a number for its parsed event,
-- or none if `JSON.parse` throws.
pub data Input : Type 0 where
  timer_fires : ℕ → Bool → Input
  opens closes errors : ℕ → Input
  frame : ℕ → Option ℕ → Input
  hides : ℕ → Input
  resumes : ℕ → Bool → Input
  close_call : Input
  send_call : ℕ → Input

unfoldable pub socket_opens : ℕ → Client → Client × List Output
socket_opens i c =
    let up = record c { sockets = set_ready i ReadyState.opened c.sockets } in
    if is_closed (ready_at i c.sockets)
    then (c, [])
    else if live_at i c.sockets
    then (record up { backoff = 500 }, status true ∷ [])
    else (up, [])

unfoldable pub socket_closes : ℕ → Client → Client × List Output
unfolding retry_later
socket_closes i c =
    let down = record c { sockets = set_ready i ReadyState.closed c.sockets } in
    if is_closed (ready_at i c.sockets)
    then (c, [])
    else if on_close_at i c.sockets && same_id (some i) c.ws
    then (retry_later down, status false ∷ [])
    else (down, [])

unfoldable pub socket_errors : ℕ → Client → Client × List Output
socket_errors i c =
    if live_at i c.sockets
    then (record c { sockets = set_ready i (close_ready (ready_at i c.sockets)) c.sockets }, [])
    else (c, [])

unfoldable pub frame_arrives : ℕ → Option ℕ → Client → Client × List Output
frame_arrives i none c = (c, [])
frame_arrives i (some e) c = (c, if live_at i c.sockets then event e ∷ [] else [])

-- `ws.onclose = null; ws.close()`
abbrev pub hang_up : Option ℕ → IdMap Socket → IdMap Socket
hang_up none m = m
hang_up (some i) m = IdMap.put i (socket (close_ready (ready_at i m)) (live_at i m) false) m

unfoldable pub close_client : Client → Client × List Output
close_client c = (
  record (cancel_retry c) {
    closed_by_us = true;
    listening = false;
    sockets = hang_up c.ws c.sockets;
  },
  [],
)

unfoldable pub send_data : ℕ → Client → Client × List Output
send_data e c = (
  c,
  elim c.ws [ none ↦ [] | some i ↦ if is_open (ready_at i c.sockets) then sent e ∷ [] else [] ],
)

-- A timer fires only while it is pending, and page events reach the client while it listens.
unfoldable pub step : Client → Input → Client × List Output
unfolding connect on_resume socket_opens socket_closes socket_errors frame_arrives close_client
    send_data
step c (timer_fires t made) =
    if contains c.timers t then connect made (record c { timers = without t c.timers }) else (c, [])
step c (opens i) = socket_opens i c
step c (closes i) = socket_closes i c
step c (errors i) = socket_errors i c
step c (frame i e) = frame_arrives i e c
step c (hides now) = if c.listening then (record c { hidden_at = now }, []) else (c, [])
step c (resumes now made) = if c.listening then on_resume now made c else (c, [])
step c close_call = close_client c
step c (send_call e) = send_data e c

abbrev pub idle_client : Client
idle_client = record {
  sockets = [];
  timers = [];
  next = 0;
  ws = none;
  backoff = 500;
  closed_by_us = false;
  hidden_at = 0;
  retry_timer = none;
  listening = true;
}
