-- ===== src/Secret/Handshake/Agreement.antt =====
-- Two honest parties end the handshake with matching sessions.
use rivendell.Base.{ℕ, ◌≡◌, refl, ◌≢◌, none, some, [], ◌∷◌, arith, length}
use rivendell.JsMap
use rivendell.JsMap.{get-set, JsMap}
use rivendell.Secret.Bytes.{Bytes, build_sign_data}
use rivendell.Secret.Bytes.Binding.{fill_exact}
use rivendell.Secret.Crypto.{Crypto, IsSound}
use rivendell.Secret.Session.{
  Phase, Session, Client, secret_offer, secret_accept, returned, given, make_session,
}
use rivendell.Secret.Handshake.{
  import_id_key, derive_session_keys, sign_eph, verify_eph, shared_secret, offer_of, accept_of,
  complete_of, is_trusted, Keys,
}

given-some : (b : Bytes) → b ≢ [] → given (some b) ≡ some b
given-some [] h = absurd (h refl)
given-some (x ∷ b) h = refl

pub nonempty_of_length : (b : Bytes) → length b ≡ 32 → b ≢ []
nonempty_of_length [] h e = absurd (omega (arith, h))
nonempty_of_length (x ∷ b) h e = cc e

module _ (c : Crypto) (v : IsSound c) where
  import_good : (k : Bytes) → import_id_key c (c.enc64 (c.id_pub k)) ≡ returned (c.id_pub k)
  unfolding import_id_key
  import_good k = rw (v.dec64-enc64 (c.id_pub k), (v.id_pub_good k).0)

  -- The bytes to sign, for a key and a nonce of 32 bytes.
  sign_data_good :
      (eph nonce : Bytes) (me peer : ℕ)
      → length eph ≡ 32
      → length nonce ≡ 32
      → (d : Bytes) × (build_sign_data eph me peer nonce ≡ some d)
  unfolding build_sign_data
  sign_data_good eph nonce me peer h k = (
    rivendell.Secret.Bytes.with_eph me peer nonce eph,
    rw (build_sign_data, fill_exact 32 nonce k, fill_exact 32 eph h),
  )

  -- A signature that one side makes is the one that the other side accepts.
  pub signed :
      (k eph nonce : Bytes) (me peer : ℕ)
      → length eph ≡ 32
      → length nonce ≡ 32
      → (sig : Bytes) × (sign_eph c k eph me peer nonce ≡ returned sig)
        × (verify_eph c (c.id_pub k) (c.enc64 sig) eph me peer nonce ≡ returned tt)
        × (sig ≢ [])
  unfolding sign_eph verify_eph
  signed k eph nonce me peer h l =
      let d = sign_data_good eph nonce me peer h l in
      let g = v.sign_good k d.0 in
      (c.sign k d.0, rw d.1, rw (d.1, v.dec64-enc64 (c.sign k d.0), g.0), g.1)

  -- Both sides have the same shared bits.
  pub secret_of :
      (mine theirs : Bytes)
      → (s : Bytes) × (shared_secret c mine (c.eph_pub theirs) ≡ returned s)
        × (shared_secret c theirs (c.eph_pub mine) ≡ returned s)
  secret_of mine theirs =
      let d = v.shared mine theirs in
      (d.0, rw ((v.eph_pub_good theirs).0, d.1), rw ((v.eph_pub_good mine).0, d.2))

  pub enc64_given : (b : Bytes) → b ≢ [] → given (some (c.enc64 b)) ≡ some (c.enc64 b)
  enc64_given b h = given-some (c.enc64 b) (v.enc64_nonempty b h)

  module _ (a b ch : ℕ) (ka kb ea eb nonce : Bytes) (l : length nonce ≡ 32) where
    abbrev pub offered_session : Session
    offered_session = record (make_session ch b) {
      phase = Phase.offered;
      session_nonce = nonce;
      eph_private = some ea;
      peer_id_key = some (c.enc64 (c.id_pub kb));
    }

    pub offer_good :
        let sig = (signed ka (c.eph_pub ea) nonce a b (v.eph_pub_good ea).1 l).0 in
        offer_of c ka a ch b (c.enc64 (c.id_pub kb)) ea nonce
        ≡ returned (
          offered_session,
          secret_offer ch (c.enc64 (c.eph_pub ea)) (c.enc64 sig) (c.enc64 nonce),
        )
    unfolding offer_of
    offer_good =
        rw
          (offer_of, import_good kb, (signed ka (c.eph_pub ea) nonce a b (v.eph_pub_good ea).1 l).1)

    -- The keys that the acceptor derives.
    abbrev pub acceptor_keys : Keys
    acceptor_keys = derive_session_keys c (secret_of eb ea).0 nonce b a

    pub accept_good :
        (cl : Client)
        → cl.my_user_id ≡ b
        → let sig_a = (signed ka (c.eph_pub ea) nonce a b (v.eph_pub_good ea).1 l).0 in
          let sig_b = (signed kb (c.eph_pub eb) nonce b a (v.eph_pub_good eb).1 l).0 in
          accept_of c kb cl ch a
            (c.enc64 (c.eph_pub ea))
            (c.enc64 sig_a)
            (c.enc64 nonce)
            (c.enc64 (c.id_pub ka))
            eb
          ≡ returned (
            record (make_session ch a) {
              phase = Phase.active;
              session_nonce = nonce;
              peer_id_key = some (c.enc64 (c.id_pub ka));
              send_chain_key = acceptor_keys.send_chain_key;
              recv_chain_key = acceptor_keys.recv_chain_key;
              verified = is_trusted (JsMap.get a cl.trust) (c.enc64 (c.id_pub ka));
            },
            secret_accept ch (c.enc64 (c.eph_pub eb)) (c.enc64 sig_b),
          )
    unfolding accept_of
    accept_good cl e =
        let sa = signed ka (c.eph_pub ea) nonce a b (v.eph_pub_good ea).1 l in
        let sb = signed kb (c.eph_pub eb) nonce b a (v.eph_pub_good eb).1 l in
        rw (
          accept_of,
          e,
          import_good ka,
          v.dec64-enc64 nonce,
          v.dec64-enc64 (c.eph_pub ea),
          sa.2,
          (secret_of eb ea).1,
          sb.1,
        )

    pub complete_good :
        (cl : Client)
        → cl.my_user_id ≡ a
        → let sig_b = (signed kb (c.eph_pub eb) nonce b a (v.eph_pub_good eb).1 l).0 in
          let keys = derive_session_keys c (secret_of eb ea).0 nonce a b in
          complete_of c cl offered_session b
            (c.enc64 (c.id_pub kb))
            (some (c.enc64 (c.eph_pub eb)))
            (some (c.enc64 sig_b))
          ≡ returned (record offered_session {
            phase = Phase.active;
            send_chain_key = keys.send_chain_key;
            recv_chain_key = keys.recv_chain_key;
            verified = is_trusted (JsMap.get b cl.trust) (c.enc64 (c.id_pub kb));
            eph_private = none;
          })
    unfolding complete_of
    complete_good cl e =
        let sb = signed kb (c.eph_pub eb) nonce b a (v.eph_pub_good eb).1 l in
        let g =
          enc64_given (c.eph_pub eb) (nonempty_of_length (c.eph_pub eb) (v.eph_pub_good eb).1) in
        rw (
          complete_of,
          e,
          g,
          enc64_given sb.0 sb.3,
          import_good kb,
          v.dec64-enc64 (c.eph_pub eb),
          sb.2,
          (secret_of eb ea).2,
        )
