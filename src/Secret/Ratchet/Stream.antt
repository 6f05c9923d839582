-- ===== src/Secret/Ratchet/Stream.antt =====
-- Messages that are sent one after another and arrive in that order.
use rivendell.Base.{
  ℕ, ◌+◌, ◌≡◌, refl, sym, ◌∙◌, some, List, [], ◌∷◌, ◌++◌, ==_refl, length, append_nil, append_assoc,
}
use rivendell.JsMap.{get-set}
use rivendell.Secret.Bytes.{Bytes, build_aad, be, replay_ok}
use rivendell.Secret.Bytes.Binding.{fill_exact}
use rivendell.Secret.Crypto.{Crypto, IsSound}
use rivendell.Secret.Session.{
  Phase, Session, SecretMessage, Client, Sent, secret_msg, returned, done, put_session, get_session,
}
use rivendell.Secret.Ratchet.{
  Wire, ratchet_step, encrypt_message, decrypt_message, Sending, send_start, send_end,
  send_secret_message, Receiving, receive_start, receive_end, receive, after_send, after_receive,
  update_session, expected_counter,
}
use rivendell.Secret.Bytes.{replay_ok}
use rivendell.Secret.Bytes.{replay_ok}
use rivendell.Base.{append_nil, append_assoc}

-- What `me` sends from the one session is what the other one can read next.
abbrev pub Reads : ℕ → Session → Session → Type 0
Reads me s r =
    (s.phase ≡ Phase.active)
    × (r.phase ≡ Phase.active)
    × (r.peer_user_id ≡ me)
    × (s.session_nonce ≡ r.session_nonce)
    × (length s.session_nonce ≡ 32)
    × (s.send_chain_key ≡ r.recv_chain_key)
    × (s.send_counter ≡ r.recv_next_expected)

-- The frames as the peer gets them.
abbrev pub wires_of : List Sent → List Wire
wires_of [] = []
wires_of (secret_msg ch ct nonce counter ∷ ss) =
    record { ct = some ct; nonce = some nonce; counter = some counter } ∷ wires_of ss
wires_of (_ ∷ ss) = wires_of ss

-- Every text is sent, each with its random nonce: the client after it, and the frames.
unfoldable pub send_all : Crypto → ℕ → List (Bytes × Bytes) → Client → Client × List Wire
unfolding send_secret_message
send_all c ch [] cl = (cl, [])
send_all c ch ((iv, text) ∷ ts) cl =
    let out = send_secret_message c iv ch text cl in
    let rest = send_all c ch ts out.client in (rest.0, wires_of out.sent ++ rest.1)

unfoldable pub receive_all : Crypto → ℕ → ℕ → List Wire → Client → Client
unfolding receive
receive_all c ch from [] cl = cl
receive_all c ch from (w ∷ ws) cl = receive_all c ch from ws (receive c ch from w cl).client

-- The messages that the texts become, the first with the number `n`.
unfoldable pub numbered : ℕ → ℕ → List (Bytes × Bytes) → List SecretMessage
numbered me n [] = []
numbered me n ((iv, text) ∷ ts) =
    record { from_user_id = me; number = n; text = text } ∷ numbered me (n + 1) ts

module _ (c : Crypto) (v : IsSound c) (ch : ℕ) where
  -- The next chain key.
  pub next_of : Session → Bytes
  next_of s = (ratchet_step c s.send_chain_key s.send_counter).1

  aad_of : ℕ → Session → Bytes
  aad_of me s = be 8 me ++ (be 4 s.send_counter ++ (be 8 ch ++ s.session_nonce))

  pub ct_of : ℕ → Bytes → Bytes → Session → Bytes
  ct_of me iv text s =
      c.enc64 (c.encrypt (ratchet_step c s.send_chain_key s.send_counter).0 iv (aad_of me s) text)

  aad_good :
      (me : ℕ) (s : Session)
      → length s.session_nonce ≡ 32
      → build_aad me s.send_counter ch s.session_nonce ≡ some (aad_of me s)
  unfolding build_aad aad_of
  aad_good me s h = rw (build_aad, fill_exact 32 s.session_nonce h)

  sending : Bytes → Session → Sending
  sending text s = record {
    channel = ch;
    text = text;
    counter = s.send_counter;
    session_nonce = s.session_nonce;
    chain_key = s.send_chain_key;
  }

  send_started :
      (text : Bytes) (cl : Client) (s : Session)
      → get_session ch cl ≡ some s
      → s.phase ≡ Phase.active
      → send_start ch text cl ≡ returned (sending text s)
  unfolding send_start sending
  send_started text cl s g a = rw (send_start, g, a)

  encrypted :
      (me : ℕ) (iv text : Bytes) (s : Session)
      → length s.session_nonce ≡ 32
      → encrypt_message c text me s.send_counter ch s.session_nonce s.send_chain_key iv
        ≡ some (ct_of me iv text s, c.enc64 iv, next_of s)
  unfolding encrypt_message ct_of next_of
  encrypted me iv text s h = rw (encrypt_message, aad_good me s h)

  pub update_good :
      (f : Session → Session) (cl : Client) (s : Session)
      → get_session ch cl ≡ some s
      → update_session ch f cl ≡ put_session ch (f s) cl
  update_good f cl s g = rw (update_session, g)

  pub send_one :
      (iv text : Bytes) (cl : Client) (s : Session)
      → get_session ch cl ≡ some s
      → s.phase ≡ Phase.active
      → length s.session_nonce ≡ 32
      → let me = cl.my_user_id in
        send_secret_message c iv ch text cl
        ≡ done
            (put_session ch (after_send me text (next_of s) s) cl)
            (secret_msg ch (ct_of me iv text s) (c.enc64 iv) s.send_counter ∷ [])
            []
  unfolding send_secret_message send_end sending
  send_one iv text cl s g a h =
      let me = cl.my_user_id in
      rw (
        send_secret_message,
        send_started text cl s g a,
        send_end,
        encrypted me iv text s h,
        update_good (after_send me text (next_of s)) cl s g,
      )

  -- The frame of the text.
  abbrev pub wire_of : ℕ → Bytes → Bytes → Session → Wire
  wire_of me iv text s = record {
    ct = some (ct_of me iv text s);
    nonce = some (c.enc64 iv);
    counter = some s.send_counter;
  }

  -- The reader's session after the text.
  read_by : ℕ → Bytes → Session → Session → Session
  read_by me text s r = record r {
    recv_chain_key = next_of s;
    recv_next_expected = s.send_counter + 1;
    messages =
        r.messages ++ (record { from_user_id = me; number = s.send_counter; text = text } ∷ []);
  }

  pub decrypted :
      (me : ℕ) (iv text : Bytes) (s r : Session)
      → Reads me s r
      → decrypt_message c
          (some (ct_of me iv text s))
          (some (c.enc64 iv))
          s.send_counter
          me
          ch
          r.session_nonce
          r.recv_chain_key
        ≡ some (text, next_of s)
  unfolding decrypt_message ct_of next_of
  decrypted me iv text s r h =
      let key = (ratchet_step c s.send_chain_key s.send_counter).0 in
      rw (
        decrypt_message,
        sym h.3,
        sym h.5,
        aad_good me s h.4,
        v.dec64-enc64 iv,
        v.dec64-enc64 (c.encrypt key iv (aad_of me s) text),
        v.decrypt-encrypt key iv (aad_of me s) text,
      )

  replay_good : (n : ℕ) → expected_counter n (some n) ≡ some (n, n + 1)
  unfolding replay_ok
  replay_good n = rw (replay_ok, ==_refl n)

  abbrev pub receiving : ℕ → Bytes → Bytes → Session → Session → Receiving
  receiving me iv text s r = record {
    channel = ch;
    from_user_id = me;
    wire = wire_of me iv text s;
    counter = s.send_counter;
    next_expected = s.send_counter + 1;
    session_nonce = r.session_nonce;
    chain_key = r.recv_chain_key;
  }

  pub receive_started :
      (me : ℕ) (iv text : Bytes) (s r : Session) (rc : Client)
      → Reads me s r
      → get_session ch rc ≡ some r
      → receive_start ch me (wire_of me iv text s) rc ≡ some (receiving me iv text s r)
  unfolding receive_start
  receive_started me iv text s r rc h g =
      rw (receive_start, g, h.1, h.2, ==_refl me, sym h.6, replay_good s.send_counter)

  receive_one :
      (me : ℕ) (iv text : Bytes) (s r : Session) (rc : Client)
      → Reads me s r
      → get_session ch rc ≡ some r
      → (receive c ch me (wire_of me iv text s) rc).client ≡ put_session ch (read_by me text s r) rc
  unfolding receive receive_end read_by
  receive_one me iv text s r rc h g = rw (
    receive,
    receive_started me iv text s r rc h g,
    receive_end,
    decrypted me iv text s r h,
    update_good (after_receive (receiving me iv text s r) text (next_of s)) rc r g,
  )

  still-Reads :
      (me : ℕ) (text : Bytes) (s r : Session)
      → Reads me s r
      → Reads me (after_send me text (next_of s) s) (read_by me text s r)
  unfolding read_by next_of
  still-Reads me text s r h = (h.0, h.1, h.2, h.3, h.4, refl, refl)

  pub put_get : (s : Session) (cl : Client) → get_session ch (put_session ch s cl) ≡ some s
  put_get s cl = get-set ch ch s cl.sessions ∙ rw (==_refl ch)

  -- The client and the frames after a first text.
  sent_first :
      (iv text : Bytes) (ts : List (Bytes × Bytes)) (cl : Client) (s : Session)
      → get_session ch cl ≡ some s
      → s.phase ≡ Phase.active
      → length s.session_nonce ≡ 32
      → let me = cl.my_user_id in
        let rest = send_all c ch ts (put_session ch (after_send me text (next_of s) s) cl) in
        send_all c ch ((iv, text) ∷ ts) cl ≡ (rest.0, wire_of me iv text s ∷ rest.1)
  unfolding send_all
  sent_first iv text ts cl s g a h = rw (send_one iv text cl s g a h)

  -- What is so when the texts have been sent and their frames have arrived, in their order: the
  -- texts are read, each once, in that order and numbered from `n` on, and the one session still
  -- reads what the other sends.
  unfoldable pub AllRead :
      ℕ → ℕ → List (Bytes × Bytes) → Session → Client → Client × List Wire → Type 0
  unfolding receive_all numbered
  AllRead me n ts r rc sent =
      let rc' = receive_all c ch me sent.1 rc in
      (s' : Session) × (r' : Session) × (get_session ch sent.0 ≡ some s')
      × (get_session ch rc' ≡ some r')
      × (r'.messages ≡ r.messages ++ numbered me n ts)
      × Reads me s' r'

  AllRead-first :
      (me : ℕ) (iv text : Bytes) (ts : List (Bytes × Bytes)) (s r : Session) (rc : Client)
      (rest : Client × List Wire)
      → get_session ch rc ≡ some r
      → Reads me s r
      → AllRead me
          (s.send_counter + 1)
          ts
          (read_by me text s r)
          (put_session ch (read_by me text s r) rc)
          rest
      → AllRead me s.send_counter ((iv, text) ∷ ts) r rc (rest.0, wire_of me iv text s ∷ rest.1)
  unfolding AllRead receive_all numbered read_by
  AllRead-first me iv text ts s r rc rest k h d =
      let m : SecretMessage = record { from_user_id = me; number = s.send_counter; text = text } in
      (
        d.0,
        d.1,
        d.2,
        rw (receive_all, receive_one me iv text s r rc h k) (d.3),
        d.4 ∙ append_assoc r.messages (m ∷ []) (numbered me (s.send_counter + 1) ts),
        d.5,
      )

  sent_none : (cl : Client) → send_all c ch [] cl ≡ (cl, [])
  unfolding send_all
  sent_none cl = refl

  none_read :
      (cl rc : Client) (s r : Session)
      → get_session ch cl ≡ some s
      → get_session ch rc ≡ some r
      → Reads cl.my_user_id s r
      → AllRead cl.my_user_id s.send_counter [] r rc (cl, [])
  unfolding AllRead receive_all numbered
  none_read cl rc s r g k h = (s, r, g, k, sym (append_nil r.messages), h)

  -- If a client's session reads what the other's sends, then texts that are sent one after another
  -- and arrive in that order are all read, each once, in that order and numbered from the counter
  -- on; and the one session still reads what the other sends.
  pub receive_all-send_all :
      (ts : List (Bytes × Bytes)) (cl rc : Client) (s r : Session)
      → get_session ch cl ≡ some s
      → get_session ch rc ≡ some r
      → Reads cl.my_user_id s r
      → AllRead cl.my_user_id s.send_counter ts r rc (send_all c ch ts cl)
  receive_all-send_all [] cl rc s r g k h = rw (sent_none cl) (none_read cl rc s r g k h)
  receive_all-send_all ((iv, text) ∷ ts) cl rc s r g k h =
      let me = cl.my_user_id in
      let s' = after_send me text (next_of s) s in
      let r' = read_by me text s r in
      let cl' = put_session ch s' cl in
      rw (sent_first iv text ts cl s g h.0 h.4) (
        AllRead-first me iv text ts s r rc (send_all c ch ts cl') k h (
          receive_all-send_all ts cl' (put_session ch r' rc) s' r' (put_get s' cl) (put_get r' rc)
            (still-Reads me text s r h)))
