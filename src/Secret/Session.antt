-- ===== src/Secret/Session.antt =====
-- web/static/secret.js: the state of the module, and what it sends and emits. A missing field of a
-- payload is none; base64 texts and message texts are byte strings. The identity key and the trust
-- records stand for the browser's database, which does not fail here.
use rivendell.Base.{
  ℕ, ◌≡◌, refl, ◌⊎◌, inl, inr, Bool, true, false, Option, none, some, List, [], ◌∷◌,
}
use rivendell.JsMap
use rivendell.JsMap.{JsMap}
use rivendell.Secret.Bytes.{Bytes}
use rivendell.Base.{◌≡◌, refl, ◌⊎◌, inl, inr}

pub data Phase : Type 0 where
  idle offered incoming active ended : Phase

pub record Offer : Type 0 where
  pub eph : Option Bytes
  pub sig : Option Bytes
  pub session_nonce : Option Bytes
  pub peer_id_key : Option Bytes

-- `number` is the counter in the message's id.
pub record SecretMessage : Type 0 where
  pub from_user_id : ℕ
  pub number : ℕ
  pub text : Bytes

pub record Session : Type 0 where
  pub dm_channel_id : ℕ
  pub peer_user_id : ℕ
  pub phase : Phase
  pub session_nonce : Bytes
  pub eph_private : Option Bytes
  pub peer_id_key : Option Bytes
  pub send_chain_key : Bytes
  pub recv_chain_key : Bytes
  pub send_counter : ℕ
  pub recv_next_expected : ℕ
  pub messages : List SecretMessage
  pub verified : Bool
  pub pending_offer : Option Offer

-- The keys and the nonce are null until they are set.
abbrev pub make_session : ℕ → ℕ → Session
make_session dm_channel_id peer_user_id = record {
  dm_channel_id = dm_channel_id;
  peer_user_id = peer_user_id;
  phase = Phase.idle;
  session_nonce = [];
  eph_private = none;
  peer_id_key = none;
  send_chain_key = [];
  recv_chain_key = [];
  send_counter = 0;
  recv_next_expected = 0;
  messages = [];
  verified = false;
  pending_offer = none;
}

-- The identity key in memory and the one in the database, and the peers' keys that were verified.
pub record Client : Type 0 where
  pub my_user_id : ℕ
  pub id_private : Option Bytes
  pub stored_id_private : Option Bytes
  pub trust : JsMap Bytes
  pub sessions : JsMap Session

pub data Sent : Type 0 where
  secret_offer : ℕ → Bytes → Bytes → Bytes → Sent
  secret_accept : ℕ → Bytes → Bytes → Sent
  secret_end : ℕ → Sent
  secret_msg : ℕ → Bytes → Bytes → ℕ → Sent

pub data Emitted : Type 0 where
  secret_request : ℕ → ℕ → Bool → Emitted
  session_active : ℕ → Bool → Emitted
  session_ended : ℕ → Emitted
  message_received : ℕ → ℕ → Bytes → Emitted
  dismissed : ℕ → Emitted

pub data Error : Type 0 where
  no_identity_key malformed bad_encoding bad_length bad_key bad_signature no_session : Error

pub data Attempt {ℓ} (A : Type ℓ) : Type ℓ where
  returned : A → Attempt A
  threw : Error → Attempt A

pub Attempt-cases {ℓ} :
    {A : Type ℓ} (m : Attempt A) → ((a : A) × (m ≡ returned a)) ⊎ ((e : Error) × (m ≡ threw e))
Attempt-cases (returned a) = inl (a, refl)
Attempt-cases (threw e) = inr (e, refl)

-- `if (!test) throw` and a value that has to be there.
abbrev pub require : Bool → Error → Attempt (Unit {0})
require false why = threw why
require true why = returned tt

abbrev pub need {ℓ} : {A : Type ℓ} → Option A → Error → Attempt A
need none why = threw why
need (some a) why = returned a

-- What follows an `await` runs only if it did not throw.
infixl 5 ◌>>=◌
abbrev pub ◌>>=◌ {ℓ κ} :
    {A : Type ℓ} → {B : Type κ} → (first : Attempt A) → (next : A → Attempt B) → Attempt B
threw why >>= next = threw why
returned result >>= next = next result

infixl 5 ◌>>◌
abbrev pub ◌>>◌ {ℓ} : {B : Type ℓ} → (first : Attempt (Unit {0})) → (next : Attempt B) → Attempt B
first >> next = first >>= λ _. next

-- A text that is neither missing nor empty.
abbrev pub given : Option Bytes → Option Bytes
given none = none
given (some []) = none
given (some (b ∷ bs)) = some (b ∷ bs)

-- The client after a call, what was sent and emitted, and whether the call threw.
pub record Outcome : Type 0 where
  pub client : Client
  pub sent : List Sent
  pub emitted : List Emitted
  pub failure : Option Error

abbrev pub done : Client → List Sent → List Emitted → Outcome
done c s e = record { client = c; sent = s; emitted = e; failure = none }

abbrev pub failed : Client → Error → Outcome
failed c e = record { client = c; sent = []; emitted = []; failure = some e }

abbrev pub get_session : ℕ → Client → Option Session
get_session ch c = JsMap.get ch c.sessions

abbrev pub put_session : ℕ → Session → Client → Client
put_session ch s c = record c { sessions = JsMap.set ch s c.sessions }

abbrev pub drop_session : ℕ → Client → Client
drop_session ch c = record c { sessions = JsMap.delete ch c.sessions }
