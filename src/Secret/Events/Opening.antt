-- ===== src/Secret/Events/Opening.antt =====
-- A whole handshake: an offer, its acceptance and the accept's arrival.
use rivendell.Base.{
  ℕ, ◌≡◌, refl, ap, ◌∙◌, ◌≢◌, false, Option, none, some, List, [], ◌∷◌, arith, ==_refl, length,
}
use rivendell.JsMap
use rivendell.JsMap.{JsMap, get-set}
use rivendell.Secret.Bytes.{Bytes}
use rivendell.Secret.Crypto.{Crypto, IsSound}
use rivendell.Secret.Session.{
  Phase, Session, Client, Offer, Sent, secret_offer, secret_accept, secret_end, secret_msg, Outcome,
  done, put_session, get_session, make_session, session_active,
}
use rivendell.Secret.Handshake.{
  key_or_load, initiate_secret, accept_secret, ensure_identity_key, whole_offer,
  derive_session_keys, is_trusted,
}
use rivendell.Secret.Handshake.Agreement.{
  signed, secret_of, offer_good, accept_good, complete_good, offered_session, acceptor_keys,
  enc64_given, nonempty_of_length,
}
use rivendell.Secret.Ratchet.Stream.{Reads}
use rivendell.Secret.Events.{
  SecretEvent, ends, offer, accept, msg, handle_secret_event, get_pending_offer, has_offered,
  on_offer, on_accept, incoming_of,
}

-- A frame as the server passes it on to the peer.
abbrev pub delivered : ℕ → Sent → SecretEvent
delivered from (secret_offer ch eph sig nonce) = offer ch from (some eph) (some sig) (some nonce)
delivered from (secret_accept ch eph sig) = accept ch from (some eph) (some sig)
delivered from (secret_end ch) = ends ch
delivered from (secret_msg ch ct nonce counter) =
    msg ch from (record { ct = some ct; nonce = some nonce; counter = some counter })

unfoldable pub handle_all : Crypto → (ℕ → Option Bytes) → ℕ → List Sent → Client → Client
unfolding handle_secret_event
handle_all c resolve from [] cl = cl
handle_all c resolve from (s ∷ ss) cl =
    handle_all c resolve from ss (handle_secret_event c resolve (delivered from s) cl).client

-- The user accepts the request that the channel shows.
unfoldable pub accept_pending : Crypto → ℕ → ℕ → Bytes → Bytes → Client → Outcome
unfolding get_pending_offer accept_secret
accept_pending c ch from fresh eph_private cl = elim (get_pending_offer ch cl) [
  | none ↦ done cl [] []
  | some o ↦ accept_secret c ch from o fresh eph_private cl
]

-- The clients after a whole handshake that the first one starts. `fresh`, the ephemeral keys and
-- the nonce are what the browser's random numbers give.
unfoldable pub handshake :
    Crypto
    → (ℕ → Option Bytes)
    → ℕ
    → Bytes
    → Bytes
    → Bytes
    → Bytes
    → Client
    → Client
    → Client × Client
unfolding initiate_secret handle_all accept_pending
handshake c resolve ch fresh ea eb nonce a b =
    let offered = initiate_secret c ch b.my_user_id (resolve b.my_user_id) fresh ea nonce a in
    let asked = handle_all c resolve a.my_user_id offered.sent b in
    let accepted = accept_pending c ch a.my_user_id fresh eb asked in
    (handle_all c resolve b.my_user_id accepted.sent offered.client, accepted.client)

module _ (c : Crypto) (v : IsSound c) (resolve : ℕ → Option Bytes) (ch : ℕ)
    (ka kb ea eb nonce fresh : Bytes) (l : length nonce ≡ 32) (a b : Client)
    (ida : a.id_private ≡ some ka) (idb : b.id_private ≡ some kb)
    (pa : resolve a.my_user_id ≡ some (c.enc64 (c.id_pub ka)))
    (pb : resolve b.my_user_id ≡ some (c.enc64 (c.id_pub kb))) where
  offering : Session
  offering = offered_session c v a.my_user_id b.my_user_id ch ka kb ea eb nonce l

  offer_sig : Bytes
  offer_sig =
      (signed c v ka (c.eph_pub ea) nonce a.my_user_id b.my_user_id (v.eph_pub_good ea).1 l).0

  offer_frame : Sent
  offer_frame = secret_offer ch (c.enc64 (c.eph_pub ea)) (c.enc64 offer_sig) (c.enc64 nonce)

  same_keys :
      (k : Bytes) (cl : Client) → cl.id_private ≡ some k → ensure_identity_key fresh cl ≡ (k, cl)
  unfolding ensure_identity_key
  same_keys k cl e = ap (key_or_load fresh cl) e

  initiated :
      initiate_secret c ch b.my_user_id (resolve b.my_user_id) fresh ea nonce a
      ≡ done (put_session ch offering a) (offer_frame ∷ []) []
  unfolding initiate_secret offering offer_frame offer_sig
  initiated = rw (
    initiate_secret,
    pb,
    enc64_given c v (c.id_pub kb) (v.id_pub_good kb).1,
    same_keys ka a ida,
    offer_good c v a.my_user_id b.my_user_id ch ka kb ea eb nonce l,
    same_keys ka a ida,
  )

  the_offer : Offer
  the_offer = record {
    eph = some (c.enc64 (c.eph_pub ea));
    sig = some (c.enc64 offer_sig);
    session_nonce = some (c.enc64 nonce);
    peer_id_key = resolve a.my_user_id;
  }

  asked : Client
  asked = put_session ch (incoming_of ch a.my_user_id the_offer) b

  offer_arrives :
      has_offered (get_session ch b) ≡ false
      → handle_all c resolve a.my_user_id (offer_frame ∷ []) b ≡ asked
  unfolding handle_all handle_secret_event on_offer offer_frame asked the_offer
  offer_arrives h = rw (handle_all, on_offer, h)

  put_get : (s : Session) (cl : Client) → get_session ch (put_session ch s cl) ≡ some s
  put_get s cl = get-set ch ch s cl.sessions ∙ rw (==_refl ch)

  pending : get_pending_offer ch asked ≡ some the_offer
  unfolding get_pending_offer asked
  pending = rw (get_pending_offer, put_get (incoming_of ch a.my_user_id the_offer) b)

  accepted : Session
  accepted = record (make_session ch a.my_user_id) {
    phase = Phase.active;
    session_nonce = nonce;
    peer_id_key = some (c.enc64 (c.id_pub ka));
    send_chain_key =
        (acceptor_keys c v a.my_user_id b.my_user_id ch ka kb ea eb nonce l).send_chain_key;
    recv_chain_key =
        (acceptor_keys c v a.my_user_id b.my_user_id ch ka kb ea eb nonce l).recv_chain_key;
    verified = is_trusted (JsMap.get a.my_user_id b.trust) (c.enc64 (c.id_pub ka));
  }

  accept_sig : Bytes
  accept_sig =
      (signed c v kb (c.eph_pub eb) nonce b.my_user_id a.my_user_id (v.eph_pub_good eb).1 l).0

  accept_frame : Sent
  accept_frame = secret_accept ch (c.enc64 (c.eph_pub eb)) (c.enc64 accept_sig)

  whole :
      whole_offer the_offer
      ≡ some (c.enc64 (c.eph_pub ea), c.enc64 offer_sig, c.enc64 nonce, c.enc64 (c.id_pub ka))
  unfolding the_offer offer_sig
  whole = rw (
    enc64_given c v (c.eph_pub ea) (nonempty_of_length (c.eph_pub ea) (v.eph_pub_good ea).1),
    enc64_given c v offer_sig
        (signed c v ka (c.eph_pub ea) nonce a.my_user_id b.my_user_id (v.eph_pub_good ea).1 l).3,
    enc64_given c v nonce (nonempty_of_length nonce l),
    pa,
    enc64_given c v (c.id_pub ka) (v.id_pub_good ka).1,
  )

  accepts :
      accept_pending c ch a.my_user_id fresh eb asked
      ≡ done
          (put_session ch accepted asked)
          (accept_frame ∷ [])
          (session_active ch accepted.verified ∷ [])
  unfolding accept_pending accept_secret accepted accept_frame accept_sig offer_sig asked
  accepts = rw (
    accept_pending,
    pending,
    accept_secret,
    whole,
    same_keys kb asked idb,
    accept_good c v a.my_user_id b.my_user_id ch ka kb ea eb nonce l asked refl,
    same_keys kb asked idb,
  )

  keys_cross :
      (shared : Bytes) (x y : ℕ)
      → x ≢ y
      → let mine = derive_session_keys c shared nonce x y in
        let theirs = derive_session_keys c shared nonce y x in
        (mine.send_chain_key ≡ theirs.recv_chain_key)
        × (theirs.send_chain_key ≡ mine.recv_chain_key)
  unfolding derive_session_keys
  keys_cross shared x y d = ground arith

  completed : Session
  completed =
      let keys = derive_session_keys c (secret_of c v eb ea).0 nonce a.my_user_id b.my_user_id in
      record offering {
        phase = Phase.active;
        send_chain_key = keys.send_chain_key;
        recv_chain_key = keys.recv_chain_key;
        verified = is_trusted (JsMap.get b.my_user_id a.trust) (c.enc64 (c.id_pub kb));
        eph_private = none;
      }

  accept_arrives :
      handle_all c resolve b.my_user_id (accept_frame ∷ []) (put_session ch offering a)
      ≡ put_session ch completed (put_session ch offering a)
  unfolding handle_all handle_secret_event on_accept accept_frame accept_sig completed offering
  accept_arrives = rw (
    handle_all,
    on_accept,
    put_get offering a,
    ==_refl b.my_user_id,
    pb,
    enc64_given c v (c.id_pub kb) (v.id_pub_good kb).1,
    complete_good c v a.my_user_id b.my_user_id ch ka kb ea eb nonce l (put_session ch offering a)
        refl,
  )

  met :
      has_offered (get_session ch b) ≡ false
      → handshake c resolve ch fresh ea eb nonce a b
        ≡ (put_session ch completed (put_session ch offering a), put_session ch accepted asked)
  unfolding handshake
  met h = rw (handshake, initiated, offer_arrives h, accepts, accept_arrives)

  keys_match :
      a.my_user_id ≢ b.my_user_id
      → (r : Reads a.my_user_id completed accepted) × Reads b.my_user_id accepted completed
  unfolding completed accepted offering
  keys_match d =
      let k = keys_cross (secret_of c v eb ea).0 a.my_user_id b.my_user_id d in
      ((refl, refl, refl, refl, l, k.0, refl), (refl, refl, refl, refl, l, k.1, refl))

  -- Two users who have each other's published keys and do the whole handshake, the second not
  -- having an offer of his own out, both end with an active session in the channel, in which each
  -- reads what the other sends.
  pub handshake-Reads :
      has_offered (get_session ch b) ≡ false
      → a.my_user_id ≢ b.my_user_id
      → let after = handshake c resolve ch fresh ea eb nonce a b in
        (s : Session) × (r : Session) × (get_session ch after.0 ≡ some s)
        × (get_session ch after.1 ≡ some r)
        × Reads a.my_user_id s r
        × Reads b.my_user_id r s
  handshake-Reads h d =
      let k = keys_match d in
      rw (met h) (
        completed,
        accepted,
        put_get completed (put_session ch offering a),
        put_get accepted asked,
        k.0,
        k.1,
      )
