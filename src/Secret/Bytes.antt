-- ===== src/Secret/Bytes.antt =====
-- web/static/secret.js: the byte strings that are signed, authenticated and shown. Bytes are
-- numbers below 256, and ids are below 2 ^ 63.
pub mod Binding
use rivendell.Base.{
  ℕ, zero, suc, ◌+◌, ◌-◌, ◌*◌, ◌/◌, ◌%◌, Bool, true, false, Option, none, some, List, [], ◌∷◌, ◌++◌,
  ltb, ◌==◌, if◌then◌else◌, length,
}

abbrev pub Bytes : Type 0
Bytes = List ℕ

-- The last `k` bytes of a number, the highest first.
unfoldable pub be : ℕ → ℕ → Bytes
be zero n = []
be (suc k) n = be k (n / 256) ++ ((n % 256) ∷ [])

abbrev pub zeros : ℕ → Bytes
zeros zero = []
zeros (suc n) = 0 ∷ zeros n

-- `new Uint8Array(buf, at, n).set(bytes)` on zeros: too many bytes are a RangeError.
unfoldable pub fill : ℕ → Bytes → Option Bytes
fill n bytes = if ltb n (length bytes) then none else some (bytes ++ zeros (n - length bytes))

abbrev pub fmap : (Bytes → Bytes) → Option Bytes → Option Bytes
fmap f none = none
fmap f (some b) = some (f b)

unfoldable pub build_aad : ℕ → ℕ → ℕ → Bytes → Option Bytes
unfolding be fill
build_aad sender_id counter channel_id session_nonce =
    fmap (λ nonce. be 8 sender_id ++ (be 4 counter ++ (be 8 channel_id ++ nonce)))
      (fill 32 session_nonce)

abbrev pub with_eph : ℕ → ℕ → Bytes → Bytes → Bytes
unfolding be
with_eph my_user_id peer_user_id nonce eph =
    eph ++ (be 8 my_user_id ++ (be 8 peer_user_id ++ nonce))

unfoldable pub build_sign_data : Bytes → ℕ → ℕ → Bytes → Option Bytes
unfolding be fill with_eph
build_sign_data eph_pub_raw my_user_id peer_user_id session_nonce = elim (fill 32 session_nonce) [
  | none ↦ none
  | some nonce ↦ fmap (with_eph my_user_id peer_user_id nonce) (fill 32 eph_pub_raw)
]

unfoldable pub replay_ok : ℕ → ℕ → Bool × ℕ
replay_ok next_expected counter =
    if counter == next_expected then (true, counter + 1) else (false, next_expected)

unfoldable pub canonical_pub_key_order : ℕ → Bytes → ℕ → Bytes → Bytes × Bytes
canonical_pub_key_order user_id_a key_a user_id_b key_b =
    if ltb user_id_a user_id_b then (key_a, key_b) else (key_b, key_a)

-- The big-endian number of some bytes.
unfoldable pub to_number : ℕ → Bytes → ℕ
to_number n [] = n
to_number n (b ∷ bs) = to_number (n * 256 + b) bs

-- Five decimal digits, padded with zeros.
abbrev pub five_digits : ℕ → Bytes
five_digits g =
    (48 + g / 10000 % 10)
    ∷ (48 + g / 1000 % 10)
    ∷ (48 + g / 100 % 10)
    ∷ (48 + g / 10 % 10)
    ∷ (48 + g % 10)
    ∷ []

-- The groups of the loop, the last first, before `out`.
unfoldable pub groups : ℕ → ℕ → List Bytes → List Bytes
groups zero n out = out
groups (suc k) n out = groups k (n / 100000) (five_digits (n % 100000) ∷ out)

-- `join(" ")`
unfoldable pub join : List Bytes → Bytes
join [] = []
join (g ∷ []) = g
join (g ∷ h ∷ gs) = g ++ (32 ∷ join (h ∷ gs))

unfoldable pub format_safety_number : Bytes → Bytes
unfolding to_number groups join
format_safety_number hash_bytes = join (groups 12 (to_number 0 hash_bytes) [])
