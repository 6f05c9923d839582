-- ===== src/Secret/Events/Authentic.antt =====
-- How a session becomes active.
use rivendell.Base.{
  ℕ, ◌≡◌, refl, sym, ap, subst, ◌∙◌, ◌≢◌, ◌⊎◌, inl, inr, Bool, true, false, ◌&&◌, Option, none,
  some, ltb, ◌==◌, if◌then◌else◌, ==_iff, Bool-cases, Option-cases, some_inj,
}
use rivendell.JsMap
use rivendell.JsMap.{JsMap, get-set, get-delete}
use rivendell.Secret.Bytes.{Bytes, build_sign_data}
use rivendell.Secret.Crypto.{Crypto}
use rivendell.Secret.Session.{
  Phase, Session, Client, Error, Attempt, returned, threw, ◌>>=◌, need, require, given, put_session,
  get_session, drop_session, malformed, bad_encoding, bad_key, bad_length, bad_signature,
}
use rivendell.Secret.Handshake.{import_id_key, verify_eph, complete_of}
use rivendell.Secret.Ratchet.{
  Wire, receive, receive_start, receive_end, after_receive, update_session, is_active,
}
use rivendell.Secret.Events.{
  SecretEvent, dismiss, ends, offer, accept, msg, handle_secret_event, on_dismiss, on_end, on_offer,
  on_accept, request, incoming_of, has_offered, is_offered,
}
use rivendell.Secret.Session.{Offer}
use rivendell.Secret.Ratchet.{decrypt_message}
use rivendell.Secret.Session.{Attempt-cases}

after_await {ℓ κ} :
    {A : Type ℓ} {B : Type κ} (m : Attempt A) (f : A → Attempt B) (b : B)
    → (m >>= f) ≡ returned b
    → (a : A) × (m ≡ returned a) × (f a ≡ returned b)
after_await (returned a) f b h = (a, refl, h)
after_await (threw e) f b h = cc

need-some {ℓ} : {A : Type ℓ} (o : Option A) (e : Error) (a : A) → need o e ≡ returned a → o ≡ some a
need-some none e a h = cc
need-some (some x) e a h = cc

require-true : (t : Bool) (e : Error) (u : Unit {0}) → require t e ≡ returned u → t ≡ true
require-true true e u h = refl
require-true false e u h = cc

-- The signature, in base64, is one of the peer's ephemeral key, of both ids and of the nonce that
-- verifies under the key, which is in base64 too.
abbrev pub IsSigned : Crypto → Bytes → Bytes → Bytes → ℕ → ℕ → Bytes → Type 0
IsSigned c key sig eph from me nonce =
    (pk : Bytes) × (raw : Bytes) × (d : Bytes) × (c.dec64 key ≡ some pk)
    × (c.dec64 sig ≡ some raw)
    × (build_sign_data eph from me nonce ≡ some d)
    × (c.verify pk raw d ≡ true)

import_ok :
    (c : Crypto) (key pk : Bytes) → import_id_key c key ≡ returned pk → c.dec64 key ≡ some pk
unfolding import_id_key
import_ok c key pk h =
    let r = after_await (need (c.dec64 key) bad_encoding) _ pk h in
    let g = after_await (require (c.is_id_key r.0) bad_key) _ pk r.2 in
    need-some (c.dec64 key) bad_encoding r.0 r.1 ∙ cc (g.2)

verify_ok :
    (c : Crypto) (key pk sig eph : Bytes) (from me : ℕ) (nonce : Bytes) (u : Unit {0})
    → c.dec64 key ≡ some pk
    → verify_eph c pk sig eph from me nonce ≡ returned u
    → IsSigned c key sig eph from me nonce
unfolding verify_eph
verify_ok c key pk sig eph from me nonce u k h =
    let d = after_await (need (build_sign_data eph from me nonce) bad_length) _ u h in
    let raw = after_await (need (c.dec64 sig) bad_encoding) _ u d.2 in
    (
      pk,
      raw.0,
      d.0,
      k,
      need-some (c.dec64 sig) bad_encoding raw.0 raw.1,
      need-some (build_sign_data eph from me nonce) bad_length d.0 d.1,
      require-true (c.verify pk raw.0 d.0) bad_signature u raw.2,
    )

-- The signature in the accept is one of its ephemeral key.
abbrev pub HasSigned : Crypto → Client → Session → ℕ → Bytes → Option Bytes → Option Bytes → Type 0
HasSigned c cl s from key eph64 sig64 =
    (e : Bytes) × (sig : Bytes) × (eph : Bytes) × (given eph64 ≡ some e)
    × (given sig64 ≡ some sig)
    × (c.dec64 e ≡ some eph)
    × IsSigned c key sig eph from cl.my_user_id s.session_nonce

complete_ok :
    (c : Crypto) (cl : Client) (s t : Session) (from : ℕ) (key : Bytes) (eph64 sig64 : Option Bytes)
    → complete_of c cl s from key eph64 sig64 ≡ returned t
    → HasSigned c cl s from key eph64 sig64
unfolding complete_of
complete_ok c cl s t from key eph64 sig64 h =
    let e = after_await (need (given eph64) malformed) _ t h in
    let sig = after_await (need (given sig64) malformed) _ t e.2 in
    let pk = after_await (import_id_key c key) _ t sig.2 in
    let eph = after_await (need (c.dec64 e.0) bad_encoding) _ t pk.2 in
    let u =
      after_await (verify_eph c pk.0 sig.0 eph.0 from cl.my_user_id s.session_nonce) _ t eph.2 in
    (
      e.0,
      sig.0,
      eph.0,
      need-some (given eph64) malformed e.0 e.1,
      need-some (given sig64) malformed sig.0 sig.1,
      need-some (c.dec64 e.0) bad_encoding eph.0 eph.1,
      verify_ok c key pk.0 sig.0 eph.0 from cl.my_user_id s.session_nonce u.0
          (import_ok c key pk.0 pk.1) u.1,
    )

-- A session that a client has in the channel, and that is active.
abbrev pub IsOpen : ℕ → Client → Type 0
IsOpen ch cl = (s : Session) × (get_session ch cl ≡ some s) × (s.phase ≡ Phase.active)

none-some {ℓ} : {A : Type ℓ} (a : A) → none ≢ some a
none-some a h = cc

ended_active : Phase.ended ≢ Phase.active
ended_active h = cc

incoming_active : Phase.incoming ≢ Phase.active
incoming_active h = cc

put_other :
    (ch k : ℕ) (s : Session) (cl : Client)
    → IsOpen ch (put_session k s cl)
    → ((k ≡ ch) × (s.phase ≡ Phase.active)) ⊎ IsOpen ch cl
put_other ch k s cl h =
    let g = sym (get-set k ch s cl.sessions) ∙ h.1 in
    elim (Bool-cases (k == ch)) [
      | inl e ↦ inl (
        (==_iff k ch).0 e,
        rw
            (some_inj s h.0
              (subst (λ t. (if t then some s else JsMap.get ch cl.sessions) ≡ some h.0) e g))
            (h.2),
      )
      | inr e ↦
          inr
            (h.0, subst (λ t. (if t then some s else JsMap.get ch cl.sessions) ≡ some h.0) e g, h.2)
    ]

drop_other : (ch k : ℕ) (cl : Client) → IsOpen ch (drop_session k cl) → IsOpen ch cl
drop_other ch k cl h =
    let g = sym (get-delete k ch cl.sessions) ∙ h.1 in
    elim (Bool-cases (k == ch)) [
      | inl e ↦ absurd (
          none-some h.0
            (subst (λ t. (if t then none else JsMap.get ch cl.sessions) ≡ some h.0) e g))
      | inr e ↦
          (h.0, subst (λ t. (if t then none else JsMap.get ch cl.sessions) ≡ some h.0) e g, h.2)
    ]

if_IsOpen :
    (ch : ℕ) (b : Bool) (x y : Client) → IsOpen ch (if b then x else y) → IsOpen ch x ⊎ IsOpen ch y
if_IsOpen ch true x y h = inl h
if_IsOpen ch false x y h = inr h

on_dismiss-IsOpen : (ch k : ℕ) (cl : Client) → IsOpen ch (on_dismiss k cl).client → IsOpen ch cl
unfolding on_dismiss
on_dismiss-IsOpen ch k cl h =
    elim (if_IsOpen ch (has_offered (get_session k cl)) (drop_session k cl) cl h) [
      | inl o ↦ drop_other ch k cl o
      | inr o ↦ o
    ]

request-IsOpen :
    (ch k from : ℕ) (o : Offer) (cl : Client)
    → IsOpen ch (request k from o cl).client
    → IsOpen ch cl
request-IsOpen ch k from o cl h = elim (put_other ch k (incoming_of k from o) cl h) [
  | inl e ↦ absurd (incoming_active e.1)
  | inr o ↦ o
]

-- The event is an accept from the peer of an offer of ours, signed under the peer's published key.
abbrev pub IsVouched : Crypto → (ℕ → Option Bytes) → SecretEvent → ℕ → Client → Type 0
IsVouched c resolve e ch cl =
    (from : ℕ) × (eph : Option Bytes) × (sig : Option Bytes) × (s : Session) × (key : Bytes) × (e
      ≡ accept ch from eph sig)
    × (get_session ch cl ≡ some s)
    × ((is_offered s.phase && (s.peer_user_id == from)) ≡ true)
    × (given (resolve from) ≡ some key)
    × HasSigned c cl s from key eph sig

on_end-IsOpen : (ch k : ℕ) (cl : Client) → IsOpen ch (on_end k cl).client → IsOpen ch cl
unfolding on_end
on_end-IsOpen ch k cl h = elim (Option-cases (get_session k cl)) [
  | inl e ↦ rw (on_end, e) at h
  | inr e ↦ elim (Bool-cases (is_active e.0.phase)) [
    | inl b ↦
        elim (put_other ch k (record e.0 { phase = Phase.ended }) cl (rw (on_end, e.1, b) at h)) [
          | inl q ↦ absurd (ended_active q.1)
          | inr o ↦ o
        ]
    | inr b ↦ drop_other ch k cl (rw (on_end, e.1, b) at h)
  ]
]

on_offer-IsOpen :
    (resolve : ℕ → Option Bytes) (ch k from : ℕ) (eph sig salt : Option Bytes) (cl : Client)
    → IsOpen ch (on_offer resolve k from eph sig salt cl).client
    → IsOpen ch cl
unfolding on_offer
on_offer-IsOpen resolve ch k from eph sig salt cl h =
    let o : Offer = record {
      eph = eph;
      sig = sig;
      session_nonce = salt;
      peer_id_key = resolve from;
    } in
    elim (Bool-cases (has_offered (get_session k cl))) [
      | inl b ↦ elim (Bool-cases (ltb cl.my_user_id from)) [
        | inl l ↦ rw (on_offer, b, l) at h
        | inr l ↦
            drop_other ch k cl
              (request-IsOpen ch k from o (drop_session k cl) (rw (on_offer, b, l) at h))
      ]
      | inr b ↦ request-IsOpen ch k from o cl (rw (on_offer, b) at h)
    ]

update_session-IsOpen :
    (ch k : ℕ) (f : Session → Session) (cl : Client)
    → ((s : Session) → (f s).phase ≡ s.phase)
    → IsOpen ch (update_session k f cl)
    → IsOpen ch cl
update_session-IsOpen ch k f cl p h = elim (Option-cases (get_session k cl)) [
  | inl e ↦ rw (update_session, e) at h
  | inr e ↦ elim (put_other ch k (f e.0) cl (rw (update_session, e.1) at h)) [
    | inl q ↦ (e.0, rw (sym q.0) (e.1), sym (p e.0) ∙ q.1)
    | inr o ↦ o
  ]
]

receive-IsOpen :
    (c : Crypto) (ch k from : ℕ) (w : Wire) (cl : Client)
    → IsOpen ch (receive c k from w cl).client
    → IsOpen ch cl
unfolding receive receive_end
receive-IsOpen c ch k from w cl h = elim (Option-cases (receive_start k from w cl)) [
  | inl e ↦ rw (receive, e) at h
  | inr e ↦
      let p = e.0 in
      elim (Option-cases (
        decrypt_message c p.wire.ct p.wire.nonce p.counter p.from_user_id p.channel p.session_nonce
          p.chain_key)) [
            | inl d ↦ rw (receive, e.1, receive_end, d) at h
            | inr d ↦
                update_session-IsOpen ch p.channel (after_receive p d.0.0 d.0.1) cl (λ s. refl)
                  (rw (receive, e.1, receive_end, d.1) at h)
          ]
]

completed-IsOpen :
    (c : Crypto) (resolve : ℕ → Option Bytes) (ch k from : ℕ) (eph sig : Option Bytes) (cl : Client)
    (s t : Session) (key : Bytes)
    → get_session k cl ≡ some s
    → (is_offered s.phase && s.peer_user_id == from) ≡ true
    → given (resolve from) ≡ some key
    → complete_of c cl s from key eph sig ≡ returned t
    → IsOpen ch (put_session k t cl)
    → IsOpen ch cl ⊎ IsVouched c resolve (accept k from eph sig) ch cl
completed-IsOpen c resolve ch k from eph sig cl s t key g b r e h = elim (put_other ch k t cl h) [
  | inl q ↦ inr (
    from,
    eph,
    sig,
    s,
    key,
    ap (λ n. accept n from eph sig) (q.0),
    rw (sym q.0) g,
    b,
    r,
    complete_ok c cl s t from key eph sig e,
  )
  | inr o ↦ inl o
]

on_accept-IsOpen :
    (c : Crypto) (resolve : ℕ → Option Bytes) (ch k from : ℕ) (eph sig : Option Bytes) (cl : Client)
    → IsOpen ch (on_accept c resolve k from eph sig cl).client
    → IsOpen ch cl ⊎ IsVouched c resolve (accept k from eph sig) ch cl
unfolding on_accept
on_accept-IsOpen c resolve ch k from eph sig cl h = elim (Option-cases (get_session k cl)) [
  | inl e ↦ inl (rw (on_accept, e) at h)
  | inr e ↦ elim (Bool-cases (is_offered e.0.phase && e.0.peer_user_id == from)) [
    | inr b ↦ inl (rw (on_accept, e.1, b) at h)
    | inl b ↦ elim (Option-cases (given (resolve from))) [
      | inl r ↦ inl (drop_other ch k cl (rw (on_accept, e.1, b, r) at h))
      | inr r ↦ elim (Attempt-cases (complete_of c cl e.0 from r.0 eph sig)) [
        | inl t ↦
            completed-IsOpen c resolve ch k from eph sig cl e.0 t.0 r.0 e.1 b r.1 t.1
              (rw (on_accept, e.1, b, r.1, t.1) at h)
        | inr t ↦ inl (drop_other ch k cl (rw (on_accept, e.1, b, r.1, t.1) at h))
      ]
    ]
  ]
]

-- After an event of the server, a session of the channel is active only if one was before, or if
-- the event is an accept in that channel that answers this client's own offer, comes from the user
-- to whom the offer was made, and holds a signature of its ephemeral key, of both users' ids and
-- of the offer's nonce that verifies under the key which that user has published.
pub handle_secret_event-IsVouched :
    (c : Crypto) (resolve : ℕ → Option Bytes) (e : SecretEvent) (ch : ℕ) (cl : Client)
    → IsOpen ch (handle_secret_event c resolve e cl).client
    → IsOpen ch cl ⊎ IsVouched c resolve e ch cl
unfolding handle_secret_event
handle_secret_event-IsVouched c resolve (dismiss k) ch cl h = inl (on_dismiss-IsOpen ch k cl h)
handle_secret_event-IsVouched c resolve (ends k) ch cl h = inl (on_end-IsOpen ch k cl h)
handle_secret_event-IsVouched c resolve (offer k from eph sig salt) ch cl h =
    inl (on_offer-IsOpen resolve ch k from eph sig salt cl h)
handle_secret_event-IsVouched c resolve (accept k from eph sig) ch cl h =
    on_accept-IsOpen c resolve ch k from eph sig cl h
handle_secret_event-IsVouched c resolve (msg k from w) ch cl h =
    inl (receive-IsOpen c ch k from w cl h)
