-- ===== src/Secret/Crypto.antt =====
-- What web/static/secret.js calls of the browser: SubtleCrypto, and base64. Keys are the bytes that
-- `exportKey` gives; a private key is a byte string too. A call that may throw gives an option.
use rivendell.Base.{ℕ, ◌≡◌, ◌≢◌, Bool, true, Option, some, [], length}
use rivendell.Secret.Bytes.{Bytes}

pub record Crypto : Type 0 where
  pub enc64 : Bytes → Bytes
  pub dec64 : Bytes → Option Bytes
  -- The public key of a private one.
  pub id_pub : Bytes → Bytes
  pub eph_pub : Bytes → Bytes
  -- Whether `importKey` takes the bytes.
  pub is_id_key : Bytes → Bool
  pub is_eph_key : Bytes → Bool
  -- `sign key bytes` and `verify key signature bytes`
  pub sign : Bytes → Bytes → Bytes
  pub verify : Bytes → Bytes → Bytes → Bool
  -- The shared bits of a private key and a public one.
  pub derive_bits : Bytes → Bytes → Option Bytes
  -- `hkdf key salt info length`
  pub hkdf : Bytes → Bytes → Bytes → ℕ → Bytes
  -- `encrypt key iv aad plain`
  pub encrypt : Bytes → Bytes → Bytes → Bytes → Bytes
  pub decrypt : Bytes → Bytes → Bytes → Bytes → Option Bytes
  pub digest : Bytes → Bytes

-- What those calls are documented to do for honest parties.
pub record IsSound (c : Crypto) : Type 0 where
  pub dec64-enc64 : (b : Bytes) → c.dec64 (c.enc64 b) ≡ some b
  pub enc64_nonempty : (b : Bytes) → b ≢ [] → c.enc64 b ≢ []
  pub id_pub_good : (k : Bytes) → (c.is_id_key (c.id_pub k) ≡ true) × (c.id_pub k ≢ [])
  pub eph_pub_good : (k : Bytes) → (c.is_eph_key (c.eph_pub k) ≡ true) × (length (c.eph_pub k) ≡ 32)
  pub sign_good : (k m : Bytes) → (c.verify (c.id_pub k) (c.sign k m) m ≡ true) × (c.sign k m ≢ [])
  pub shared :
      (a b : Bytes)
      → (s : Bytes) × (c.derive_bits a (c.eph_pub b) ≡ some s)
        × (c.derive_bits b (c.eph_pub a) ≡ some s)
  pub decrypt-encrypt : (k iv aad m : Bytes) → c.decrypt k iv aad (c.encrypt k iv aad m) ≡ some m
