-- ===== src/Examples/Secrets.antt =====
-- Secret sessions over a transparent stand-in for the cryptography.
use rivendell.Base.{
  ℕ, ◌≡◌, refl, ◌⊎◌, true, Option, none, some, List, [], ◌∷◌, ◌++◌, arith, ◌==◌, if◌then◌else◌,
  ==_refl,
}
use rivendell.JsMap
use rivendell.JsMap.{JsMap}
use rivendell.Secret.Bytes.{Bytes, zeros}
use rivendell.Secret.Bytes.Binding.{build_aad_binds}
use rivendell.Secret.Crypto.{Crypto, IsSound}
use rivendell.Secret.Session.{
  Phase, Session, SecretMessage, Client, make_session, put_session, get_session,
}
use rivendell.Secret.Handshake.{same_bytes, compute_safety_number}
use rivendell.Secret.Handshake.SafetyNumber.{compute_safety_number_comm}
use rivendell.Secret.Ratchet.{send_secret_message}
use rivendell.Secret.Ratchet.Stream.{Reads, AllRead, receive_all-send_all, send_all, wires_of}
use rivendell.Secret.Ratchet.Overlap.{handled_twice, handled_twice-send_secret_message}
use rivendell.Secret.Events.{SecretEvent, accept, handle_secret_event}
use rivendell.Secret.Events.Opening.{handshake, handshake-Reads}
use rivendell.Secret.Events.Authentic.{IsOpen, IsVouched, handle_secret_event-IsVouched}
use rivendell.Secret.Events.Failures.{initiates, AllOrNothing, called, called-AllOrNothing}
use rivendell.Secret.Bytes.{Bytes, zeros}
use rivendell.Secret.Handshake.SafetyNumber.{IsNumber}

-- What is left of the second after the first.
abbrev strip : Bytes → Bytes → Option Bytes
strip [] m = some m
strip (x ∷ p) [] = none
strip (x ∷ p) (y ∷ m) = if x == y then strip p m else none

strip_good : (p m : Bytes) → strip p (p ++ m) ≡ some m
strip_good [] m = refl
strip_good (x ∷ p) m = rw (==_refl x, strip_good p m)

same_good : (m : Bytes) → same_bytes m m ≡ true
same_good [] = refl
same_good (x ∷ m) = rw (==_refl x, same_good m)

abbrev transparent : Crypto
transparent = record {
  enc64 = λ b. b;
  dec64 = λ b. some b;
  id_pub = λ k. 48 ∷ k;
  eph_pub = λ k. zeros 32;
  is_id_key = λ k. true;
  is_eph_key = λ k. true;
  sign = λ k m. (48 ∷ k) ++ m;
  verify = λ k s m. same_bytes s (k ++ m);
  derive_bits = λ k p. some p;
  hkdf = λ k salt info n. zeros n;
  encrypt = λ k iv aad m. aad ++ m;
  decrypt = λ k iv aad m. strip aad m;
  digest = λ b. b;
}

transparent-IsSound : IsSound transparent
transparent-IsSound = record {
  dec64-enc64 = λ b. refl;
  enc64_nonempty = λ b h. h;
  id_pub_good = λ k. (refl, λ e. cc e);
  eph_pub_good = λ k. (refl, refl);
  sign_good = λ k m. (same_good ((48 ∷ k) ++ m), λ e. cc e);
  shared = λ a b. (zeros 32, refl, refl);
  decrypt-encrypt = λ k iv aad m. strip_good aad m;
}

abbrev user : ℕ → Client
user n = record {
  my_user_id = n;
  id_private = some (n ∷ []);
  stored_id_private = some (n ∷ []);
  trust = [];
  sessions = [];
}

abbrev opened : ℕ → Session
opened peer = record (make_session 9 peer) { phase = Phase.active; session_nonce = zeros 32 }

abbrev in_session : ℕ → ℕ → Client
in_session me peer = put_session 9 (opened peer) (user me)

abbrev texts : List (Bytes × Bytes)
texts = (1 ∷ [], 104 ∷ 105 ∷ []) ∷ (2 ∷ [], 33 ∷ []) ∷ []

abbrev hello : SecretMessage
hello = record { from_user_id = 1; number = 0; text = 104 ∷ 105 ∷ [] }

abbrev sender : ℕ
sender = 3

build_aad_binds_example :
    (sender ≡ sender) × (sender ≡ sender) × (sender ≡ sender) × (zeros 32 ≡ zeros 32)
build_aad_binds_example =
    build_aad_binds sender sender sender sender sender sender (zeros 32) (zeros 32)
      (omega arith, omega arith) (omega arith, omega arith) (omega arith, omega arith) (refl, refl)
      refl

opened-Reads : Reads 1 (opened 2) (opened 1)
opened-Reads = (refl, refl, refl, refl, refl, refl, refl)

receive_all-send_all_example :
    AllRead transparent transparent-IsSound 9 1 0 texts
      (opened 1)
      (in_session 2 1)
      (send_all transparent 9 texts (in_session 1 2))
unfolding JsMap.get JsMap.set
receive_all-send_all_example =
    receive_all-send_all transparent transparent-IsSound 9 texts (in_session 1 2) (in_session 2 1)
      (opened 2) (opened 1) refl refl opened-Reads

handled_twice_example :
    (r : Session) × (get_session 9 (
        handled_twice transparent 9 1
          (wires_of
            (send_secret_message transparent (1 ∷ []) 9 (104 ∷ 105 ∷ []) (in_session 1 2)).sent)
          (in_session 2 1))
      ≡ some r)
    × (r.messages ≡ hello ∷ hello ∷ [])
unfolding JsMap.get JsMap.set
handled_twice_example =
    handled_twice-send_secret_message transparent transparent-IsSound 9 (1 ∷ []) (104 ∷ 105 ∷ [])
      (in_session 1 2) (in_session 2 1) (opened 2) (opened 1) refl refl opened-Reads

abbrev published : ℕ → Option Bytes
published n = some (48 ∷ n ∷ [])

handshake-Reads_example :
    let after =
      handshake transparent published 9 [] (5 ∷ []) (6 ∷ []) (zeros 32) (user 1) (user 2) in
    (s : Session) × (r : Session) × (get_session 9 after.0 ≡ some s)
    × (get_session 9 after.1 ≡ some r)
    × Reads 1 s r
    × Reads 2 r s
unfolding JsMap.get
handshake-Reads_example =
    handshake-Reads transparent transparent-IsSound published 9 (1 ∷ []) (2 ∷ []) (5 ∷ []) (6 ∷ [])
      (zeros 32) [] refl (user 1) (user 2) refl refl refl refl refl (λ e. omega (arith, e))

called-AllOrNothing_example :
    AllOrNothing
      (user 1)
      (called transparent (initiates 9 2 (published 2) [] (5 ∷ []) (zeros 32)) (user 1))
called-AllOrNothing_example =
    called-AllOrNothing transparent (initiates 9 2 (published 2) [] (5 ∷ []) (zeros 32)) (user 1)

compute_safety_number_comm_example :
    (compute_safety_number transparent 1 (4 ∷ []) 2 (7 ∷ [])
      ≡ compute_safety_number transparent 2 (7 ∷ []) 1 (4 ∷ []))
    × IsNumber (compute_safety_number transparent 1 (4 ∷ []) 2 (7 ∷ []))
compute_safety_number_comm_example =
    compute_safety_number_comm transparent 1 2 (4 ∷ []) (7 ∷ []) (λ e. omega (arith, e))

-- The session of user 1 after its offer.
abbrev offering : Client
offering =
    put_session 9
      (record (make_session 9 2) {
        phase = Phase.offered;
        session_nonce = zeros 32;
        eph_private = some (5 ∷ []);
        peer_id_key = published 2;
      })
      (user 1)

abbrev the_accept : SecretEvent
the_accept =
    accept 9 2 (some (zeros 32))
      (some ((48 ∷ 2 ∷ []) ++ (zeros 32 ++ (zeros 7 ++ (2 ∷ (zeros 7 ++ (1 ∷ zeros 32)))))))

accepted_IsOpen : IsOpen 9 (handle_secret_event transparent published the_accept offering).client
unfolding handle_secret_event JsMap.get JsMap.set
accepted_IsOpen = (
  record (opened 2) {
    peer_id_key = published 2;
    send_chain_key = zeros 32;
    recv_chain_key = zeros 32;
  },
  refl,
  refl,
)

handle_secret_event-IsVouched_example :
    IsOpen 9 offering ⊎ IsVouched transparent published the_accept 9 offering
handle_secret_event-IsVouched_example =
    handle_secret_event-IsVouched transparent published the_accept 9 offering accepted_IsOpen
