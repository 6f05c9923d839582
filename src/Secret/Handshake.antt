-- ===== src/Secret/Handshake.antt =====
-- web/static/secret.js: the handshake. `initiateSecret` and `acceptSecret` are taken whole, and so
-- is the handling of an accept; the random values are arguments.
pub mod SafetyNumber
pub mod Agreement
use rivendell.Base.{
  ℕ, zero, suc, ◌+◌, ◌-◌, ◌*◌, ◌/◌, ◌%◌, ◌^◌, ◌≤◌, ◌<◌, min, max, String, ◌≡◌, refl, sym, ap, ap₂,
  subst, subst₂, ◌∙◌, ◌≢◌, ◌↔◌, ◌⊎◌, inl, inr, Bool, true, false, not, ◌&&◌, ◌||◌, Option, none,
  some, List, [], ◌∷◌, ◌++◌, map, arith, ltb, leb, ◌==◌, if◌then◌else◌, ltb→lt, leb→le, ==_iff,
  ==_refl, Bool-cases, get_or, or_else, is_some, Option-cases, same_id, same_id_refl, matches_id,
  length, get_elem?, filter, any, find, All, length-append, contains, append_nil, append_assoc,
}
use rivendell.JsMap
use rivendell.Exif.Bytes.{take, drop}
use rivendell.Format.Mentions.{codes}
use rivendell.Secret.Bytes.{Bytes, build_sign_data, canonical_pub_key_order, format_safety_number}
use rivendell.Secret.Crypto.{Crypto}
use rivendell.Secret.Session.{
  Phase, Session, Client, Offer, Sent, secret_offer, secret_accept, session_active, no_identity_key,
  malformed, bad_encoding, bad_length, bad_key, bad_signature, Attempt, returned, threw, ◌>>=◌,
  ◌>>◌, require, need, given, Outcome, done, failed, make_session, put_session,
}

-- The key in the database, or else a new one, where there is none in memory.
abbrev pub load_key : Bytes → Client → Option Bytes → Bytes × Client
load_key fresh cl (some k) = (k, record cl { id_private = some k })
load_key fresh cl none =
    (fresh, record cl { id_private = some fresh; stored_id_private = some fresh })

abbrev pub key_or_load : Bytes → Client → Option Bytes → Bytes × Client
key_or_load fresh cl (some k) = (k, cl)
key_or_load fresh cl none = load_key fresh cl cl.stored_id_private

-- The key to sign with; `fresh` is the one that is generated where there is none.
unfoldable pub ensure_identity_key : Bytes → Client → Bytes × Client
ensure_identity_key fresh cl = key_or_load fresh cl cl.id_private

unfoldable pub mark_verified : ℕ → Bytes → Client → Client
mark_verified user_id key cl = record cl { trust = JsMap.set user_id key cl.trust }

abbrev pub same_bytes : Bytes → Bytes → Bool
same_bytes [] [] = true
same_bytes (a ∷ as') (b ∷ bs) = a == b && same_bytes as' bs
same_bytes _ _ = false

-- `!!(trust && trust.keyB64 === key)`
abbrev pub is_trusted : Option Bytes → Bytes → Bool
is_trusted none key = false
is_trusted (some k) key = same_bytes k key

unfoldable pub import_id_key : Crypto → Bytes → Attempt Bytes
import_id_key c key = do
  raw ← need (c.dec64 key) bad_encoding
  require (c.is_id_key raw) bad_key
  returned raw

pub record Keys : Type 0 where
  pub send_chain_key : Bytes
  pub recv_chain_key : Bytes

unfoldable pub derive_session_keys : Crypto → Bytes → Bytes → ℕ → ℕ → Keys
derive_session_keys c shared_secret session_nonce my_user_id peer_user_id =
    let root = c.hkdf shared_secret session_nonce (codes "rivendell-otr-v1") 64 in
    let low_key = take 32 root in
    let high_key = take 32 (drop 32 root) in
    if ltb my_user_id peer_user_id
    then record { send_chain_key = low_key; recv_chain_key = high_key }
    else record { send_chain_key = high_key; recv_chain_key = low_key }

-- The signature over an ephemeral key.
unfoldable pub sign_eph : Crypto → Bytes → Bytes → ℕ → ℕ → Bytes → Attempt Bytes
unfolding build_sign_data
sign_eph c id_private eph my_user_id peer_user_id session_nonce = do
  data' ← need (build_sign_data eph my_user_id peer_user_id session_nonce) bad_length
  returned (c.sign id_private data')

-- The check of the peer's one: `peer_key` is base64, and so is `sig`.
unfoldable pub verify_eph : Crypto → Bytes → Bytes → Bytes → ℕ → ℕ → Bytes → Attempt (Unit {0})
unfolding build_sign_data
verify_eph c peer_id_pub sig eph from_user_id my_user_id session_nonce = do
  data' ← need (build_sign_data eph from_user_id my_user_id session_nonce) bad_length
  raw ← need (c.dec64 sig) bad_encoding
  require (c.verify peer_id_pub raw data') bad_signature

abbrev pub shared_secret : Crypto → Bytes → Bytes → Attempt Bytes
shared_secret c private peer_eph = do
  require (c.is_eph_key peer_eph) bad_key
  need (c.derive_bits private peer_eph) bad_key

-- The session and the frame of an offer.
unfoldable pub offer_of :
    Crypto → Bytes → ℕ → ℕ → ℕ → Bytes → Bytes → Bytes → Attempt (Session × Sent)
unfolding import_id_key sign_eph
offer_of c id_private my_user_id ch peer peer_key eph_private session_nonce = do
  _ ← import_id_key c peer_key
  let eph = c.eph_pub eph_private
  sig ← sign_eph c id_private eph my_user_id peer session_nonce
  returned (
    record (make_session ch peer) {
      phase = Phase.offered;
      session_nonce = session_nonce;
      eph_private = some eph_private;
      peer_id_key = some peer_key;
    },
    secret_offer ch (c.enc64 eph) (c.enc64 sig) (c.enc64 session_nonce),
  )

unfoldable pub initiate_secret :
    Crypto → ℕ → ℕ → Option Bytes → Bytes → Bytes → Bytes → Client → Outcome
unfolding ensure_identity_key offer_of
initiate_secret c ch peer peer_id_key fresh eph_private session_nonce cl =
    elim (given peer_id_key) [
      | none ↦ failed cl no_identity_key
      | some key ↦
          let ensured = ensure_identity_key fresh cl in
          elim (offer_of c ensured.0 cl.my_user_id ch peer key eph_private session_nonce) [
            | threw e ↦ failed ensured.1 e
            | returned made ↦ done (put_session ch made.0 ensured.1) (made.1 ∷ []) []
          ]
    ]

-- The session and the frame that answer an offer.
unfoldable pub accept_of :
    Crypto
    → Bytes
    → Client
    → ℕ
    → ℕ
    → Bytes
    → Bytes
    → Bytes
    → Bytes
    → Bytes
    → Attempt (Session × Sent)
unfolding import_id_key verify_eph derive_session_keys sign_eph
accept_of c id_private cl ch from peer_eph64 sig64 nonce64 peer_key my_eph_private = do
  peer_id_pub ← import_id_key c peer_key
  session_nonce ← need (c.dec64 nonce64) bad_encoding
  peer_eph ← need (c.dec64 peer_eph64) bad_encoding
  verify_eph c peer_id_pub sig64 peer_eph from cl.my_user_id session_nonce
  shared ← shared_secret c my_eph_private peer_eph
  let my_eph = c.eph_pub my_eph_private
  let keys = derive_session_keys c shared session_nonce cl.my_user_id from
  sig ← sign_eph c id_private my_eph cl.my_user_id from session_nonce
  returned (
    record (make_session ch from) {
      phase = Phase.active;
      session_nonce = session_nonce;
      peer_id_key = some peer_key;
      send_chain_key = keys.send_chain_key;
      recv_chain_key = keys.recv_chain_key;
      verified = is_trusted (JsMap.get from cl.trust) peer_key;
    },
    secret_accept ch (c.enc64 my_eph) (c.enc64 sig),
  )

-- The four fields, if none is missing.
abbrev pub whole_offer : Offer → Option (Bytes × Bytes × Bytes × Bytes)
whole_offer o = elim (given o.eph) [
  | none ↦ none
  | some eph ↦ elim (given o.sig) [
    | none ↦ none
    | some sig ↦ elim (given o.session_nonce) [
      | none ↦ none
      | some nonce ↦ elim (given o.peer_id_key) [
        | none ↦ none
        | some key ↦ some (eph, sig, nonce, key)
      ]
    ]
  ]
]

unfoldable pub accept_secret : Crypto → ℕ → ℕ → Offer → Bytes → Bytes → Client → Outcome
unfolding ensure_identity_key accept_of
accept_secret c ch from offer fresh my_eph_private cl = elim (whole_offer offer) [
  | none ↦ failed cl malformed
  | some o ↦
      let ensured = ensure_identity_key fresh cl in
      elim (accept_of c ensured.0 ensured.1 ch from o.0 o.1 o.2 o.3 my_eph_private) [
        | threw e ↦ failed ensured.1 e
        | returned made ↦
            done (put_session ch made.0 ensured.1) (made.1 ∷ [])
              (session_active ch made.0.verified ∷ [])
      ]
]

-- The offered session after its accept.
unfoldable pub complete_of :
    Crypto → Client → Session → ℕ → Bytes → Option Bytes → Option Bytes → Attempt Session
unfolding import_id_key verify_eph derive_session_keys
complete_of c cl sess from peer_key eph64 sig64 = do
  peer_eph64 ← need (given eph64) malformed
  sig ← need (given sig64) malformed
  peer_id_pub ← import_id_key c peer_key
  peer_eph ← need (c.dec64 peer_eph64) bad_encoding
  verify_eph c peer_id_pub sig peer_eph from cl.my_user_id sess.session_nonce
  private ← need sess.eph_private bad_key
  shared ← shared_secret c private peer_eph
  let keys = derive_session_keys c shared sess.session_nonce cl.my_user_id from
  returned (record sess {
    phase = Phase.active;
    peer_id_key = some peer_key;
    send_chain_key = keys.send_chain_key;
    recv_chain_key = keys.recv_chain_key;
    verified = is_trusted (JsMap.get from cl.trust) peer_key;
    eph_private = none;
  })

-- `computeSafetyNumber`, of two base64 keys.
unfoldable pub compute_safety_number : Crypto → ℕ → Bytes → ℕ → Bytes → Attempt Bytes
unfolding canonical_pub_key_order format_safety_number
compute_safety_number c my_user_id my_pub peer_user_id peer_pub = do
  mine ← need (c.dec64 my_pub) bad_encoding
  theirs ← need (c.dec64 peer_pub) bad_encoding
  let order = canonical_pub_key_order my_user_id mine peer_user_id theirs
  returned (format_safety_number (c.digest (order.0 ++ order.1)))
