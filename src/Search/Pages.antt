-- ===== src/Search/Pages.antt =====
-- What the list shows, in whatever order the answers come.
use rivendell.Base.{
  ℕ, zero, suc, ◌≤◌, ◌<◌, ◌≡◌, refl, subst, true, false, Option, none, some, List, [], ◌∷◌, ◌++◌,
  map, arith, length, get_elem?, All, none_ne, some_inj,
}
use rivendell.Regex.{Text}
use rivendell.Search.{Hit, Row, found, Search, Request, System, last_id, without}

-- The first pages of a query, and where the next one starts.
unfoldable pub first_pages : (Option ℕ → List Hit) → ℕ → List Hit × Option ℕ
first_pages page zero = ([], none)
first_pages page (suc n) =
    let l = first_pages page n in let p = page l.1 in (l.0 ++ p, some (last_id 0 p))

-- The list is the first `n` pages, and the next one is asked for from `b`.
pub record Shows (page : Text → Option ℕ → List Hit) (q : Text) (list : List Row) (b : Option ℕ)
    : Type 0 where
  pub n : ℕ
  pub listed : list ≡ map found (first_pages (page q) n).0
  pub next : b ≡ (first_pages (page q) n).1

-- A request that is the latest one is for the query, and for the page after those listed.
unfoldable pub IsLatest : (Text → Option ℕ → List Hit) → Search → Request → Type 0
IsLatest page s r =
    (r.q ≡ s.query)
    × (s.more_hidden ≡ true)
    × (elim r.reset [ true ↦ r.before ≡ none | false ↦ Shows page s.query s.list r.before ])

-- The numbers of the pending requests fall.
unfoldable pub Falls : ℕ → List Request → Type 0
Falls n [] = Unit
Falls n (r ∷ rs) = (r.my_seq < n) × Falls r.my_seq rs

-- All requests are older than `n`.
unfoldable pub Older : ℕ → List Request → Type 0
Older n rs = All (λ (r : Request). r.my_seq < n) rs

pub Falls-Older : (n m : ℕ) (rs : List Request) → n ≤ m → Falls n rs → Older m rs
unfolding Falls Older
Falls-Older n m [] l f = tt
Falls-Older n m (r ∷ rs) l f =
    (omega (arith, f.0, l), Falls-Older r.my_seq m rs (omega (arith, f.0, l)) f.1)

pub Falls-le : (n m : ℕ) (rs : List Request) → n ≤ m → Falls n rs → Falls m rs
unfolding Falls
Falls-le n m [] l f = tt
Falls-le n m (r ∷ rs) l f = (omega (arith, f.0, l), f.1)

pub without-Falls : (i n : ℕ) (rs : List Request) → Falls n rs → Falls n (without i rs)
unfolding Falls
without-Falls i n [] f = f
without-Falls zero n (r ∷ rs) f = Falls-le r.my_seq n rs (omega (arith, f.0)) f.1
without-Falls (suc i) n (r ∷ rs) f = (f.0, without-Falls i r.my_seq rs f.1)

pub without-All :
    (P : Request → Type 0) (i : ℕ) (rs : List Request) → All P rs → All P (without i rs)
without-All P i [] a = a
without-All P zero (r ∷ rs) a = a.1
without-All P (suc i) (r ∷ rs) a = (a.0, without-All P i rs a.1)

pub All-get :
    (P : Request → Type 0) (i : ℕ) (rs : List Request) (r : Request)
    → All P rs
    → get_elem? rs i ≡ some r
    → P r
All-get P i [] r a h = absurd (none_ne r h)
All-get P zero (x ∷ rs) r a h = subst P (some_inj x r h) a.0
All-get P (suc i) (x ∷ rs) r a h = All-get P i rs r a.1 h

pub All-map :
    (P Q : Request → Type 0) (rs : List Request) → ((r : Request) → P r → Q r) → All P rs → All Q rs
All-map P Q [] f a = tt
All-map P Q (r ∷ rs) f a = (f r a.0, All-map P Q rs f a.1)

-- Only the first pending request can be the latest one.
pub others_Older :
    (n i : ℕ) (rs : List Request) (r : Request)
    → Falls (suc n) rs
    → get_elem? rs i ≡ some r
    → r.my_seq ≡ n
    → Older n (without i rs)
unfolding Falls Older
others_Older n i [] r f g e = absurd (none_ne r g)
others_Older n zero (x ∷ rs) r f g e = Falls-Older x.my_seq n rs (omega (arith, f.0)) f.1
others_Older n (suc i) (x ∷ rs) r f g e = absurd (
    omega (
      arith,
      f.0,
      e,
      All-get (λ (y : Request). y.my_seq < x.my_seq) i rs r
          (Falls-Older x.my_seq x.my_seq rs (omega arith) f.1) g,
    ))

-- While the button for more shows, so do the first pages.
unfoldable pub IsShown : (Text → Option ℕ → List Hit) → Search → Type 0
IsShown page s = s.more_hidden ≡ false → Shows page s.query s.list (some s.cursor) × (0 < s.cursor)

pub record IsValid (page : Text → Option ℕ → List Hit) (y : System) : Type 0 where
  pub falls : Falls (suc y.search.seq) y.pending
  pub latest : All (λ r. r.my_seq ≡ y.search.seq → IsLatest page y.search r) y.pending
  pub shown : IsShown page y.search

-- Ids are positive.
abbrev pub ArePositive : (Text → Option ℕ → List Hit) → Type 0
ArePositive page = (q : Text) (b : Option ℕ) → All (λ (h : Hit). 0 < h.id) (page q b)

pub last_id_positive :
    (n : ℕ) (hs : List Hit) → All (λ (h : Hit). 0 < h.id) hs → 0 < length hs → 0 < last_id n hs
last_id_positive n [] a l = absurd (omega (arith, l))
last_id_positive n (h ∷ []) a l = a.0
last_id_positive n (h ∷ g ∷ hs) a l = last_id_positive h.id (g ∷ hs) a.1 (omega arith)

pub last_id_same : (n m : ℕ) (hs : List Hit) → 0 < length hs → last_id n hs ≡ last_id m hs
last_id_same n m [] l = absurd (omega (arith, l))
last_id_same n m (h ∷ hs) l = refl

-- No pending request is the latest one.
pub none-IsLatest :
    (page : Text → Option ℕ → List Hit) (s : Search) (n : ℕ) (rs : List Request)
    → Older n rs
    → n ≤ s.seq
    → All (λ r. r.my_seq ≡ s.seq → IsLatest page s r) rs
unfolding Older
none-IsLatest page s n rs o l =
    All-map (λ (r : Request). r.my_seq < n) (λ r. r.my_seq ≡ s.seq → IsLatest page s r) rs
      (λ r a e. absurd (omega (arith, a, e, l))) o
