-- ===== src/Exif/Jpeg/Wholes.antt =====
-- What the walk of any file finds.
use rivendell.Base.{
  ℕ, zero, suc, ◌+◌, ◌-◌, ◌≤◌, ◌<◌, ◌≡◌, refl, sym, subst, ◌⊎◌, inl, inr, Bool, true, false, not,
  ◌&&◌, List, [], ◌∷◌, ◌++◌, arith, ltb, ◌==◌, if◌then◌else◌, Bool-cases, length, All,
}
use rivendell.Exif.Bytes.{
  take, drop, IsByte, byte_at-IsByte, byte_at, take-All, drop-All, length-take,
}
use rivendell.Exif.Orientation.{read_exif_orientation, find_orientation, u16}
use rivendell.Exif.Jpeg.{Move, stop, skip, segment, move_at, keeps, Scan, with_segment, noted, scan}
use rivendell.Exif.Jpeg.Scanning.{IsWhole, move-taken}
use rivendell.Exif.Orientation.{read_ordered, starts_exif, orientation_tag, u32}
use rivendell.Exif.Jpeg.Scanning.{if_true, scan_stop}
use rivendell.Base.{subst, sym, Bool-cases, All, ltb, ◌==◌, not, ◌&&◌, inl, inr}
use rivendell.Base.{subst, sym, Bool-cases, All, ltb, ◌==◌, not, ◌&&◌, inl, inr}
use rivendell.Exif.Orientation.{orientation_tag, read_ordered}

pub length-drop : (bs : List ℕ) (n : ℕ) → length (drop n bs) ≡ length bs - n
length-drop bs zero = omega arith
length-drop [] (suc n) = omega arith
length-drop (b ∷ bs) (suc n) = omega (arith, length-drop bs n)

move-skipped : (bytes : List ℕ) (n : ℕ) → move_at bytes ≡ skip n → (1 ≤ n) × (n ≤ length bytes)
unfolding move_at
move-skipped [] n h = cc
move-skipped (b ∷ []) n h = cc
move-skipped (b ∷ k ∷ []) n h = ground arith
move-skipped (b ∷ k ∷ hi ∷ []) n h = ground arith
move-skipped (b ∷ k ∷ hi ∷ lo ∷ more) n h = ground arith

Move-cases :
    (mv : Move)
    → (mv ≡ stop) ⊎ (((n : ℕ) × (mv ≡ skip n)) ⊎ ((m : ℕ) × (n : ℕ) × (mv ≡ segment m n)))
Move-cases stop = inl refl
Move-cases (skip n) = inr (inl (n, refl))
Move-cases (segment m n) = inr (inr (m, n, refl))

u16_small : (le : Bool) (p : List ℕ) (i : ℕ) → All IsByte p → u16 le p i < 65536
u16_small true p i h = omega (arith, byte_at-IsByte p i h, byte_at-IsByte p (i + 1) h)
u16_small false p i h = omega (arith, byte_at-IsByte p i h, byte_at-IsByte p (i + 1) h)

choose_small : (b : Bool) (x y : ℕ) → x < 65536 → y < 65536 → (if b then x else y) < 65536
choose_small true x y h k = h
choose_small false x y h k = k

find_orientation_small :
    (le : Bool) (p : List ℕ) (entry n : ℕ) → All IsByte p → find_orientation le p entry n < 65536
unfolding find_orientation
find_orientation_small le p entry zero h = omega arith
find_orientation_small le p entry (suc n) h =
    choose_small (ltb (length p) (entry + 12)) _ _ (omega arith) (
      choose_small (u16 le p entry == orientation_tag) _ _ (u16_small le p (entry + 8) h)
        (find_orientation_small le p (entry + 12) n h))

read_ordered_small : (le : Bool) (p : List ℕ) → All IsByte p → read_ordered le p < 65536
unfolding read_ordered
read_ordered_small le p h = choose_small (not (u16 le p 8 == 42)) _ _ (omega arith) (
    choose_small (ltb (length p) (6 + u32 le p 10 + 2)) _ _ (omega arith)
      (find_orientation_small le p (6 + u32 le p 10 + 2) (u16 le p (6 + u32 le p 10)) h))

read_small : (p : List ℕ) → All IsByte p → read_exif_orientation p < 65536
unfolding read_exif_orientation
read_small p h = choose_small (ltb (length p) 14) _ _ (omega arith) (
    choose_small (not (starts_exif p)) _ _ (omega arith) (
      choose_small (byte_at p 6 == 73 && byte_at p 7 == 73) _ _ (read_ordered_small true p h) (
        choose_small (byte_at p 6 == 77 && byte_at p 7 == 77) _ _ (read_ordered_small false p h)
          (omega arith))))

noted_small : (m o : ℕ) (seg : List ℕ) → All IsByte seg → o < 65536 → noted m seg o < 65536
unfolding noted
noted_small m o seg h k =
    choose_small (m == 225) _ _
      (choose_small (read_exif_orientation (drop 4 seg) == 0) _ _ k
        (read_small (drop 4 seg) (drop-All seg 4 h)))
      k

-- The kept segments are whole, the walk stops at the tail, and the orientation has 16 bits.
pub record IsScanned (s : Scan) : Type 0 where
  pub whole : All IsWhole s.kept
  pub stops : move_at s.tail ≡ stop
  pub small : s.orientation < 65536

if_false {ℓ} : {A : Type ℓ} (b : Bool) (x y : A) → b ≡ false → (if b then x else y) ≡ y
if_false b x y h = rw h

with_segment-IsScanned :
    (m : ℕ) (seg : List ℕ) (s : Scan)
    → ((rest : List ℕ) → move_at (seg ++ rest) ≡ segment m (length seg))
    → 4 ≤ length seg
    → IsScanned s
    → IsScanned (with_segment m seg s)
with_segment-IsScanned m seg s t l h = elim (Bool-cases (keeps m)) [
  | inl e ↦ subst IsScanned (sym (if_true (keeps m) _ _ e)) (record {
    whole = (record { taken = t; kept_marker = e; long = l }, h.whole);
    stops = h.stops;
    small = h.small;
  })
  | inr e ↦
      subst IsScanned (sym (if_false (keeps m) _ _ e))
        (record { whole = h.whole; stops = h.stops; small = h.small })
]

empty-IsScanned :
    (o : ℕ) (bytes : List ℕ)
    → move_at bytes ≡ stop
    → o < 65536
    → IsScanned (record { kept = []; orientation = o; dropped = false; tail = bytes })
empty-IsScanned o bytes h k = record { whole = tt; stops = h; small = k }

scan_skip :
    (fuel o n : ℕ) (bytes : List ℕ)
    → move_at bytes ≡ skip n
    → scan (suc fuel) o bytes ≡ scan fuel o (drop n bytes)
unfolding scan
scan_skip fuel o n bytes h = rw (scan, h)

scan_segment :
    (fuel o m n : ℕ) (bytes : List ℕ)
    → move_at bytes ≡ segment m n
    → scan (suc fuel) o bytes
      ≡ with_segment m (take n bytes) (scan fuel (noted m (take n bytes) o) (drop n bytes))
unfolding scan
scan_segment fuel o m n bytes h = rw (scan, h)

nothing_stops : (bytes : List ℕ) → length bytes ≤ 0 → move_at bytes ≡ stop
unfolding move_at
nothing_stops [] h = refl
nothing_stops (b ∷ bs) h = absurd (omega (arith, h))

pub scan-IsScanned :
    (fuel o : ℕ) (bytes : List ℕ)
    → All IsByte bytes
    → length bytes ≤ fuel
    → o < 65536
    → IsScanned (scan fuel o bytes)
scan-IsScanned zero o bytes b h k =
    subst IsScanned (sym (scan_stop 0 o bytes (nothing_stops bytes h)))
      (empty-IsScanned o bytes (nothing_stops bytes h) k)
scan-IsScanned (suc fuel) o bytes b h k = elim (Move-cases (move_at bytes)) [
  | inl e ↦ subst IsScanned (sym (scan_stop (suc fuel) o bytes e)) (empty-IsScanned o bytes e k)
  | inr (inl s) ↦
      let z = move-skipped bytes s.0 s.1 in
      subst IsScanned (sym (scan_skip fuel o s.0 bytes s.1)) (
        scan-IsScanned fuel o (drop s.0 bytes) (drop-All bytes s.0 b)
          (omega (arith, z.0, z.1, h, length-drop bytes s.0)) k)
  | inr (inr s) ↦
      let z = move-taken bytes [] s.0 s.1 s.2 in
      let t = length-take bytes s.1 z.0 in
      let o2 = noted s.0 (take s.1 bytes) o in
      subst IsScanned (sym (scan_segment fuel o s.0 s.1 bytes s.2)) (
        with_segment-IsScanned s.0 (take s.1 bytes) (scan fuel o2 (drop s.1 bytes))
          (λ rest.
            subst (λ n. move_at (take s.1 bytes ++ rest) ≡ segment s.0 n) (sym t)
              (move-taken bytes rest s.0 s.1 s.2).2)
          (omega (arith, t, z.1))
          (scan-IsScanned fuel o2 (drop s.1 bytes) (drop-All bytes s.1 b)
            (omega (arith, z.0, z.1, h, length-drop bytes s.1))
            (noted_small s.0 o (take s.1 bytes) (take-All bytes s.1 b) k)))
]
