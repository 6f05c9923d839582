-- ===== src/Secret/Bytes/Binding.antt =====
-- What the authenticated bytes determine.
use rivendell.Base.{
  ℕ, zero, suc, ◌-◌, ◌/◌, ◌%◌, ◌^◌, ◌<◌, ◌≡◌, refl, sym, ◌∙◌, false, some, [], ◌∷◌, ◌++◌, arith,
  ltb, length, length-append, append_nil,
}
use rivendell.Secret.Bytes.{Bytes, be, fill, build_aad, format_safety_number, groups, join}
use rivendell.Base.{append_nil}

snoc_inj : (xs ys : Bytes) (a b : ℕ) → (xs ++ (a ∷ [])) ≡ (ys ++ (b ∷ [])) → (xs ≡ ys) × (a ≡ b)
snoc_inj [] [] a b h = (refl, cc h)
snoc_inj [] (y ∷ []) a b h = cc
snoc_inj [] (y ∷ z ∷ ys) a b h = cc
snoc_inj (x ∷ []) [] a b h = cc
snoc_inj (x ∷ z ∷ xs) [] a b h = cc
snoc_inj (x ∷ xs) (y ∷ ys) a b h = let ih = snoc_inj xs ys a b (cc) in (cc (ih.0), ih.1)

append_inj :
    (xs ys us vs : Bytes) → length xs ≡ length ys → (xs ++ us) ≡ (ys ++ vs) → (xs ≡ ys) × (us ≡ vs)
append_inj [] [] us vs l h = (refl, h)
append_inj [] (y ∷ ys) us vs l h = absurd (omega (arith, l))
append_inj (x ∷ xs) [] us vs l h = absurd (omega (arith, l))
append_inj (x ∷ xs) (y ∷ ys) us vs l h =
    let ih = append_inj xs ys us vs (omega (arith, l)) (cc) in (cc (ih.0), ih.1)

pub length-be : (k n : ℕ) → length (be k n) ≡ k
unfolding be
length-be zero n = refl
length-be (suc k) n =
    omega (arith, length-append (be k (n / 256)) ((n % 256) ∷ []), length-be k (n / 256))

-- The number fits into so many bytes.
abbrev Fits : ℕ → ℕ → Type 0
Fits zero n = n ≡ 0
Fits (suc k) n = Fits k (n / 256)

be_inj : (k m n : ℕ) → Fits k m → Fits k n → be k m ≡ be k n → m ≡ n
unfolding be
be_inj zero m n f g h = omega (arith, f, g)
be_inj (suc k) m n f g h =
    let s = snoc_inj (be k (m / 256)) (be k (n / 256)) (m % 256) (n % 256) h in
    omega (arith, be_inj k (m / 256) (n / 256) f g s.0, s.1)

Fits-id : (n : ℕ) → n < 2 ^ 63 → Fits 8 n
Fits-id n h = omega (arith, h)

Fits-counter : (n : ℕ) → n < 2 ^ 32 → Fits 4 n
Fits-counter n h = omega (arith, h)

not_lt : (a b : ℕ) → a ≡ b → ltb a b ≡ false
not_lt a b h = ground arith

pub fill_exact : (n : ℕ) (b : Bytes) → length b ≡ n → fill n b ≡ some b
unfolding fill
fill_exact n b h =
    let fits : ltb n (length b) ≡ false = not_lt n (length b) (omega arith) in
    let none_left : n - length b ≡ 0 = omega arith in rw (fits, none_left, append_nil b)

aad_bytes : ℕ → ℕ → ℕ → Bytes → Bytes
aad_bytes s c ch nonce = be 8 s ++ (be 4 c ++ (be 8 ch ++ nonce))

build_aad_exact :
    (s c ch : ℕ) (nonce : Bytes)
    → length nonce ≡ 32
    → build_aad s c ch nonce ≡ some (aad_bytes s c ch nonce)
unfolding build_aad aad_bytes
build_aad_exact s c ch nonce h = rw (fill_exact 32 nonce h)

-- The associated data of two messages are the same only if the sender, the counter, the channel
-- and the session's nonce all are, for ids below 2 ^ 63, counters below 2 ^ 32 and nonces of 32
-- bytes.
pub build_aad_binds :
    (s c ch s' c' ch' : ℕ) (nonce nonce' : Bytes)
    → (s < 2 ^ 63) × (s' < 2 ^ 63)
    → (c < 2 ^ 32) × (c' < 2 ^ 32)
    → (ch < 2 ^ 63) × (ch' < 2 ^ 63)
    → (length nonce ≡ 32) × (length nonce' ≡ 32)
    → build_aad s c ch nonce ≡ build_aad s' c' ch' nonce'
    → (s ≡ s') × (c ≡ c') × (ch ≡ ch') × (nonce ≡ nonce')
unfolding aad_bytes
build_aad_binds s c ch s' c' ch' nonce nonce' hs hc hch hn e =
    let same : aad_bytes s c ch nonce ≡ aad_bytes s' c' ch' nonce' =
      cc (e, build_aad_exact s c ch nonce hn.0, build_aad_exact s' c' ch' nonce' hn.1) in
    let a = append_inj (be 8 s) (be 8 s') _ _ (length-be 8 s ∙ sym (length-be 8 s')) same in
    let b = append_inj (be 4 c) (be 4 c') _ _ (length-be 4 c ∙ sym (length-be 4 c')) a.1 in
    let d = append_inj (be 8 ch) (be 8 ch') _ _ (length-be 8 ch ∙ sym (length-be 8 ch')) b.1 in
    (
      be_inj 8 s s' (Fits-id s hs.0) (Fits-id s' hs.1) a.0,
      be_inj 4 c c' (Fits-counter c hc.0) (Fits-counter c' hc.1) b.0,
      be_inj 8 ch ch' (Fits-id ch hch.0) (Fits-id ch' hch.1) d.0,
      d.1,
    )

-- A safety number has twelve groups of five, apart by spaces.
pub length-format_safety_number : (hash : Bytes) → length (format_safety_number hash) ≡ 71
unfolding format_safety_number groups join
length-format_safety_number hash = refl
