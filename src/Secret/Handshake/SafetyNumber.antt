-- ===== src/Secret/Handshake/SafetyNumber.antt =====
-- The number that two users compare.
use rivendell.Base.{
  ℕ, ◌≡◌, refl, sym, subst, ◌∙◌, ◌≢◌, ◌⊎◌, inl, inr, Option, none, some, ◌++◌, arith, Option-cases,
  length,
}
use rivendell.Secret.Bytes.{Bytes, canonical_pub_key_order, format_safety_number}
use rivendell.Secret.Bytes.Binding.{length-format_safety_number}
use rivendell.Secret.Crypto.{Crypto}
use rivendell.Secret.Session.{Attempt, returned, threw, bad_encoding}
use rivendell.Secret.Handshake.{compute_safety_number}
use rivendell.Base.{◌⊎◌, inl, inr, subst}

order_same :
    (a b : ℕ) (k l : Bytes)
    → a ≢ b
    → canonical_pub_key_order a k b l ≡ canonical_pub_key_order b l a k
unfolding canonical_pub_key_order
order_same a b k l d = ground arith

number_of : Crypto → ℕ → ℕ → Option Bytes → Option Bytes → Attempt Bytes
unfolding format_safety_number
number_of c a b none m = threw bad_encoding
number_of c a b (some k) none = threw bad_encoding
number_of c a b (some k) (some l) =
    let order = canonical_pub_key_order a k b l in
    returned (format_safety_number (c.digest (order.0 ++ order.1)))

as_number :
    (c : Crypto) (a b : ℕ) (k l : Bytes)
    → compute_safety_number c a k b l ≡ number_of c a b (c.dec64 k) (c.dec64 l)
unfolding compute_safety_number number_of
as_number c a b k l = elim (Option-cases (c.dec64 k)) [
  | inl e ↦ rw (compute_safety_number, e)
  | inr e ↦ elim (Option-cases (c.dec64 l)) [
    | inl f ↦ rw (compute_safety_number, e.1, f)
    | inr f ↦ rw (compute_safety_number, e.1, f.1)
  ]
]

number_comm :
    (c : Crypto) (a b : ℕ) (k l : Option Bytes) → a ≢ b → number_of c a b k l ≡ number_of c b a l k
unfolding number_of
number_comm c a b none none d = refl
number_comm c a b none (some l) d = refl
number_comm c a b (some k) none d = refl
number_comm c a b (some k) (some l) d = rw (order_same a b k l d)

-- A number of 71 characters, or the error of a key that is no base64.
abbrev pub IsNumber : Attempt Bytes → Type 0
IsNumber m = ((t : Bytes) × (m ≡ returned t) × (length t ≡ 71)) ⊎ (m ≡ threw bad_encoding)

number_of-IsNumber : (c : Crypto) (a b : ℕ) (k l : Option Bytes) → IsNumber (number_of c a b k l)
unfolding number_of
number_of-IsNumber c a b none l = inr refl
number_of-IsNumber c a b (some k) none = inr refl
number_of-IsNumber c a b (some k) (some l) =
    let order = canonical_pub_key_order a k b l in
    let hash = c.digest (order.0 ++ order.1) in
    inl (format_safety_number hash, refl, length-format_safety_number hash)

-- Two users who differ see the same safety number, or the same error, whichever of the two
-- computes it: a number of 71 characters, or the error of a key that is no base64.
pub compute_safety_number_comm :
    (c : Crypto) (a b : ℕ) (k l : Bytes)
    → a ≢ b
    → (compute_safety_number c a k b l ≡ compute_safety_number c b l a k)
      × IsNumber (compute_safety_number c a k b l)
compute_safety_number_comm c a b k l d = (
  as_number c a b k l ∙ (number_comm c a b (c.dec64 k) (c.dec64 l) d ∙ sym (as_number c b a l k)),
  subst IsNumber (sym (as_number c a b k l)) (number_of-IsNumber c a b (c.dec64 k) (c.dec64 l)),
)
