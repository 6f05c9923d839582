-- ===== src/Secret/Events/Failures.antt =====
-- What a call that throws leaves behind.
use rivendell.Base.{ℕ, ◌≡◌, refl, ◌⊎◌, inl, inr, Option, none, some, [], ◌∷◌, Option-cases}
use rivendell.Secret.Bytes.{Bytes}
use rivendell.Secret.Crypto.{Crypto}
use rivendell.Secret.Session.{
  Client, Offer, Sent, Error, Outcome, given, bad_length, malformed, no_identity_key, secret_msg,
}
use rivendell.Secret.Handshake.{
  initiate_secret, accept_secret, offer_of, accept_of, ensure_identity_key, key_or_load, load_key,
  whole_offer,
}
use rivendell.Secret.Ratchet.{send_start, send_end, send_secret_message, encrypt_message}
use rivendell.Secret.Session.{Attempt-cases}

-- Either the call threw, and then the sessions are as they were and nothing was sent or emitted, or
-- it sent one frame.
abbrev pub AllOrNothing : Client → Outcome → Type 0
AllOrNothing cl o =
    ((e : Error) × (o.failure ≡ some e)
      × (o.client.sessions ≡ cl.sessions)
      × (o.sent ≡ [])
      × (o.emitted ≡ []))
    ⊎ ((o.failure ≡ none) × (f : Sent) × (o.sent ≡ f ∷ []))

load_same :
    (fresh : Bytes) (cl : Client) (o : Option Bytes)
    → (load_key fresh cl o).1.sessions ≡ cl.sessions
load_same fresh cl (some k) = refl
load_same fresh cl none = refl

key_same :
    (fresh : Bytes) (cl : Client) (o : Option Bytes)
    → (key_or_load fresh cl o).1.sessions ≡ cl.sessions
key_same fresh cl (some k) = refl
key_same fresh cl none = load_same fresh cl cl.stored_id_private

ensured_same :
    (fresh : Bytes) (cl : Client) → (ensure_identity_key fresh cl).1.sessions ≡ cl.sessions
unfolding ensure_identity_key
ensured_same fresh cl = key_same fresh cl cl.id_private

pub initiate_secret-AllOrNothing :
    (c : Crypto) (ch peer : ℕ) (key : Option Bytes) (fresh eph nonce : Bytes) (cl : Client)
    → AllOrNothing cl (initiate_secret c ch peer key fresh eph nonce cl)
unfolding initiate_secret
initiate_secret-AllOrNothing c ch peer key fresh eph nonce cl =
    let en = ensure_identity_key fresh cl in
    elim (Option-cases (given key)) [
      | inl g ↦ rw (initiate_secret, g) (inl (no_identity_key, refl, refl, refl, refl))
      | inr g ↦ elim (Attempt-cases (offer_of c en.0 cl.my_user_id ch peer g.0 eph nonce)) [
        | inl m ↦ rw (initiate_secret, g.1, m.1) (inr (refl, m.0.1, refl))
        | inr m ↦
            rw (initiate_secret, g.1, m.1) (inl (m.0, refl, ensured_same fresh cl, refl, refl))
      ]
    ]

pub accept_secret-AllOrNothing :
    (c : Crypto) (ch from : ℕ) (o : Offer) (fresh eph : Bytes) (cl : Client)
    → AllOrNothing cl (accept_secret c ch from o fresh eph cl)
unfolding accept_secret
accept_secret-AllOrNothing c ch from o fresh eph cl =
    let en = ensure_identity_key fresh cl in
    elim (Option-cases (whole_offer o)) [
      | inl g ↦ rw (accept_secret, g) (inl (malformed, refl, refl, refl, refl))
      | inr g ↦ elim (Attempt-cases (accept_of c en.0 en.1 ch from g.0.0 g.0.1 g.0.2 g.0.3 eph)) [
        | inl m ↦ rw (accept_secret, g.1, m.1) (inr (refl, m.0.1, refl))
        | inr m ↦ rw (accept_secret, g.1, m.1) (inl (m.0, refl, ensured_same fresh cl, refl, refl))
      ]
    ]

pub send_secret_message-AllOrNothing :
    (c : Crypto) (iv : Bytes) (ch : ℕ) (text : Bytes) (cl : Client)
    → AllOrNothing cl (send_secret_message c iv ch text cl)
unfolding send_secret_message send_end
send_secret_message-AllOrNothing c iv ch text cl = elim (Attempt-cases (send_start ch text cl)) [
  | inr e ↦ rw (send_secret_message, e.1) (inl (e.0, refl, refl, refl, refl))
  | inl p ↦
      elim (Option-cases (
        encrypt_message c p.0.text cl.my_user_id p.0.counter p.0.channel p.0.session_nonce
          p.0.chain_key iv)) [
            | inl w ↦
                rw (send_secret_message, p.1, send_end, w)
                  (inl (bad_length, refl, refl, refl, refl))
            | inr w ↦
                rw (send_secret_message, p.1, send_end, w.1)
                  (inr (refl, secret_msg p.0.channel w.0.0 w.0.1 p.0.counter, refl))
          ]
]

-- What the user can ask for, with the random values that it takes.
pub data Call : Type 0 where
  initiates : ℕ → ℕ → Option Bytes → Bytes → Bytes → Bytes → Call
  accepts : ℕ → ℕ → Offer → Bytes → Bytes → Call
  sends : Bytes → ℕ → Bytes → Call

unfoldable pub called : Crypto → Call → Client → Outcome
unfolding initiate_secret accept_secret send_secret_message
called c (initiates ch peer key fresh eph salt) cl = initiate_secret c ch peer key fresh eph salt cl
called c (accepts ch from o fresh eph) cl = accept_secret c ch from o fresh eph cl
called c (sends iv ch text) cl = send_secret_message c iv ch text cl

-- An offer, an acceptance or a message of the user's either throws, and then the sessions are as
-- they were and nothing has been sent or emitted, or it does not throw and has sent one frame.
pub called-AllOrNothing :
    (c : Crypto) (call : Call) (cl : Client) → AllOrNothing cl (called c call cl)
unfolding called
called-AllOrNothing c (initiates ch peer key fresh eph salt) cl =
    initiate_secret-AllOrNothing c ch peer key fresh eph salt cl
called-AllOrNothing c (accepts ch from o fresh eph) cl =
    accept_secret-AllOrNothing c ch from o fresh eph cl
called-AllOrNothing c (sends iv ch text) cl = send_secret_message-AllOrNothing c iv ch text cl
