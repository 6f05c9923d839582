-- ===== src/Secret/Ratchet.antt =====
-- web/static/secret.js: the messages of an active session. `sendSecretMessage` and the handling of
-- a `secret.msg` each wait for the browser's cryptography between reading the session and writing
-- it, so each is a start and an end. Between the two the session of the channel is not replaced.
pub mod Stream
pub mod Overlap
use rivendell.Base.{
  ℕ, zero, suc, ◌+◌, ◌-◌, ◌*◌, ◌/◌, ◌%◌, ◌^◌, ◌≤◌, ◌<◌, min, max, String, ◌≡◌, refl, sym, ap, ap₂,
  subst, subst₂, ◌∙◌, ◌≢◌, ◌↔◌, ◌⊎◌, inl, inr, Bool, true, false, not, ◌&&◌, ◌||◌, Option, none,
  some, List, [], ◌∷◌, ◌++◌, map, arith, ltb, leb, ◌==◌, if◌then◌else◌, ltb→lt, leb→le, ==_iff,
  ==_refl, Bool-cases, get_or, or_else, is_some, Option-cases, same_id, same_id_refl, matches_id,
  length, get_elem?, filter, any, find, All, length-append, contains, append_nil, append_assoc,
}
use rivendell.JsMap
use rivendell.Format.Mentions.{codes}
use rivendell.Secret.Bytes.{Bytes, be, build_aad, replay_ok}
use rivendell.Secret.Crypto.{Crypto}
use rivendell.Secret.Session.{
  Phase, Session, SecretMessage, Client, Sent, secret_msg, Emitted, message_received, Error,
  no_session, bad_length, Attempt, returned, threw, Outcome, done, failed, put_session, get_session,
}

-- The key of one message, and the next chain key.
unfoldable pub ratchet_step : Crypto → Bytes → ℕ → Bytes × Bytes
unfolding be
ratchet_step c chain_key counter =
    (c.hkdf chain_key [] (codes "msg" ++ be 4 counter) 32, c.hkdf chain_key [] (codes "chain") 32)

pub record Wire : Type 0 where
  pub ct : Option Bytes
  pub nonce : Option Bytes
  pub counter : Option ℕ

-- `iv` is the random nonce. None if the session's nonce is too long.
unfoldable pub encrypt_message :
    Crypto → Bytes → ℕ → ℕ → ℕ → Bytes → Bytes → Bytes → Option (Bytes × Bytes × Bytes)
unfolding ratchet_step build_aad
encrypt_message c text sender_id counter channel_id session_nonce chain_key iv =
    let keys = ratchet_step c chain_key counter in
    elim (build_aad sender_id counter channel_id session_nonce) [
      | none ↦ none
      | some aad ↦ some (c.enc64 (c.encrypt keys.0 iv aad text), c.enc64 iv, keys.1)
    ]

abbrev pub dec64_opt : Crypto → Option Bytes → Option Bytes
dec64_opt c none = none
dec64_opt c (some b) = c.dec64 b

abbrev pub decrypt_parts :
    Crypto → Bytes → Option Bytes → Option Bytes → Option Bytes → Option Bytes
decrypt_parts c key (some aad) (some iv) (some ct) = c.decrypt key iv aad ct
decrypt_parts c key _ _ _ = none

abbrev pub with_next : Bytes → Option Bytes → Option (Bytes × Bytes)
with_next next none = none
with_next next (some text) = some (text, next)

-- The text and the next chain key; none if it throws.
unfoldable pub decrypt_message :
    Crypto → Option Bytes → Option Bytes → ℕ → ℕ → ℕ → Bytes → Bytes → Option (Bytes × Bytes)
unfolding ratchet_step build_aad
decrypt_message c ct nonce counter sender_id channel_id session_nonce chain_key =
    let keys = ratchet_step c chain_key counter in
    with_next keys.1 (
      decrypt_parts c keys.0 (build_aad sender_id counter channel_id session_nonce)
        (dec64_opt c nonce) (dec64_opt c ct))

abbrev pub is_active : Phase → Bool
is_active Phase.active = true
is_active _ = false

-- What a send has read when it waits.
pub record Sending : Type 0 where
  pub channel : ℕ
  pub text : Bytes
  pub counter : ℕ
  pub session_nonce : Bytes
  pub chain_key : Bytes

unfoldable pub send_start : ℕ → Bytes → Client → Attempt Sending
send_start ch text cl = elim (get_session ch cl) [
  | none ↦ threw no_session
  | some s ↦
      if is_active s.phase
      then returned (record {
        channel = ch;
        text = text;
        counter = s.send_counter;
        session_nonce = s.session_nonce;
        chain_key = s.send_chain_key;
      })
      else threw no_session
]

-- The session after a message is sent.
abbrev pub after_send : ℕ → Bytes → Bytes → Session → Session
after_send me text next s = record s {
  send_chain_key = next;
  send_counter = s.send_counter + 1;
  messages =
      s.messages ++ (record { from_user_id = me; number = s.send_counter + 1; text = text } ∷ []);
}

abbrev pub update_session : ℕ → (Session → Session) → Client → Client
update_session ch f cl = elim (get_session ch cl) [ none ↦ cl | some s ↦ put_session ch (f s) cl ]

unfoldable pub send_end : Crypto → Bytes → Sending → Client → Outcome
unfolding encrypt_message
send_end c iv p cl =
    elim (encrypt_message c p.text cl.my_user_id p.counter p.channel p.session_nonce p.chain_key
      iv) [
        | none ↦ failed cl bad_length
        | some w ↦
            done (update_session p.channel (after_send cl.my_user_id p.text w.2) cl)
              (secret_msg p.channel w.0 w.1 p.counter ∷ []) []
      ]

unfoldable pub send_secret_message : Crypto → Bytes → ℕ → Bytes → Client → Outcome
unfolding send_start send_end
send_secret_message c iv ch text cl = elim (send_start ch text cl) [
  | threw e ↦ failed cl e
  | returned p ↦ send_end c iv p cl
]

-- What the handling of a frame has read when it waits.
pub record Receiving : Type 0 where
  pub channel : ℕ
  pub from_user_id : ℕ
  pub wire : Wire
  pub counter : ℕ
  pub next_expected : ℕ
  pub session_nonce : Bytes
  pub chain_key : Bytes

abbrev pub expected_counter : ℕ → Option ℕ → Option (ℕ × ℕ)
unfolding replay_ok
expected_counter next_expected none = none
expected_counter next_expected (some n) =
    if (replay_ok next_expected n).0 then some (n, (replay_ok next_expected n).1) else none

-- None if the frame is dropped at once.
unfoldable pub receive_start : ℕ → ℕ → Wire → Client → Option Receiving
unfolding expected_counter
receive_start ch from wire cl = elim (get_session ch cl) [
  | none ↦ none
  | some s ↦
      if is_active s.phase && s.peer_user_id == from
      then elim (expected_counter s.recv_next_expected wire.counter) [
        | none ↦ none
        | some n ↦ some (record {
          channel = ch;
          from_user_id = from;
          wire = wire;
          counter = n.0;
          next_expected = n.1;
          session_nonce = s.session_nonce;
          chain_key = s.recv_chain_key;
        })
      ]
      else none
]

abbrev pub after_receive : Receiving → Bytes → Bytes → Session → Session
after_receive p text next s = record s {
  recv_chain_key = next;
  recv_next_expected = p.next_expected;
  messages =
      s.messages
      ++ (record { from_user_id = p.from_user_id; number = p.counter; text = text } ∷ []);
}

unfoldable pub receive_end : Crypto → Receiving → Client → Outcome
unfolding decrypt_message
receive_end c p cl =
    elim (decrypt_message c p.wire.ct p.wire.nonce p.counter p.from_user_id p.channel
      p.session_nonce p.chain_key) [
        | none ↦ done cl [] []
        | some d ↦
            done (update_session p.channel (after_receive p d.0 d.1) cl) []
              (message_received p.channel p.from_user_id d.0 ∷ [])
      ]

-- A frame whose handling ends before anything else happens.
unfoldable pub receive : Crypto → ℕ → ℕ → Wire → Client → Outcome
unfolding receive_start receive_end
receive c ch from wire cl = elim (receive_start ch from wire cl) [
  | none ↦ done cl [] []
  | some p ↦ receive_end c p cl
]
