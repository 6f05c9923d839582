-- ===== src/Exif/Jpeg/Written.antt =====
-- Walking what `stripJpeg` writes after the first two bytes.
use rivendell.Base.{
  ℕ, zero, suc, ◌≤◌, ◌<◌, ◌≡◌, refl, sym, ap, subst, ◌∙◌, Bool, true, false, List, [], ◌∷◌, ◌++◌,
  arith, ◌==◌, if◌then◌else◌, length, All, length-append,
}
use rivendell.Exif.Bytes.{concat}
use rivendell.Exif.Orientation.{build_exif_orientation, read-build}
use rivendell.Exif.Jpeg.{
  Segment, stop, segment, move_at, keeps, Scan, with_segment, noted, scan, segs, with_exif,
  wants_exif,
}
use rivendell.Exif.Jpeg.Scanning.{IsWhole, joined, scan-joined, scan_step, noted_kept, if_true}
use rivendell.Base.{ap, ◌∙◌, ◌==◌, if◌then◌else◌, length-append, subst, sym}
use rivendell.Base.{subst, sym}

exif_move : (o : ℕ) (rest : List ℕ) → move_at (build_exif_orientation o ++ rest) ≡ segment 225 36
unfolding move_at build_exif_orientation
exif_move o rest = ground arith

noted-exif : (p o : ℕ) → p < 65536 → (p == 0) ≡ false → noted 225 (build_exif_orientation p) o ≡ p
unfolding noted build_exif_orientation
noted-exif p o h z =
    ap (λ v. if v == 0 then o else v) (read-build p h) ∙ ap (λ b. if b then o else p) z

exif_length : (p : ℕ) → length (build_exif_orientation p) ≡ 36
unfolding build_exif_orientation
exif_length p = refl

marked : Scan → Scan
marked s = record s { dropped = true }

-- The written Exif segment is dropped again, and gives its orientation.
scan-exif :
    (fuel o p : ℕ) (ks : List Segment) (tail : List ℕ)
    → All IsWhole ks
    → move_at tail ≡ stop
    → p < 65536
    → (p == 0) ≡ false
    → length (build_exif_orientation p ++ joined ks tail) ≤ fuel
    → scan fuel o (build_exif_orientation p ++ joined ks tail)
      ≡ record { kept = ks; orientation = p; dropped = true; tail = tail }
scan-exif zero o p ks tail w t h z l =
    absurd
      (omega (arith, l, exif_length p, length-append (build_exif_orientation p) (joined ks tail)))
scan-exif (suc fuel) o p ks tail w t h z l =
    let e = build_exif_orientation p in
    let shorter : length (joined ks tail) ≤ fuel =
      omega (arith, l, exif_length p, length-append e (joined ks tail)) in
    let first : scan (suc fuel) o (e ++ joined ks tail)
        ≡ with_segment 225 e (scan fuel (noted 225 e o) (joined ks tail)) =
      scan_step fuel o 225 e (joined ks tail) (
        subst (λ n. move_at (e ++ joined ks tail) ≡ segment 225 n) (sym (exif_length p))
          (exif_move p (joined ks tail))) in
    first
    ∙ (ap (λ q. with_segment 225 e (scan fuel q (joined ks tail))) (noted-exif p o h z)
        ∙ ap (with_segment 225 e) (scan-joined fuel p ks tail w t shorter))

nonzero_of_wants : (p : ℕ) → wants_exif p ≡ true → (p == 0) ≡ false
nonzero_of_wants p h = ground arith

-- What is written between the first two bytes and the end.
abbrev pub written : List (List ℕ) → List Segment → List ℕ → List ℕ
unfolding concat
written exif ks tail = concat (with_exif exif ks ++ (tail ∷ []))

scan-jfif :
    (fuel p : ℕ) (k : Segment) (ks : List Segment) (tail : List ℕ)
    → All IsWhole (k ∷ ks)
    → move_at tail ≡ stop
    → p < 65536
    → wants_exif p ≡ true
    → length (k.seg ++ (build_exif_orientation p ++ joined ks tail)) ≤ fuel
    → scan fuel 0 (k.seg ++ (build_exif_orientation p ++ joined ks tail))
      ≡ record { kept = k ∷ ks; orientation = p; dropped = true; tail = tail }
scan-jfif zero p k ks tail w t h q l =
    absurd
      (omega (arith, l, w.0.long, length-append k.seg (build_exif_orientation p ++ joined ks tail)))
scan-jfif (suc fuel) p k ks tail w t h q l =
    let more = build_exif_orientation p ++ joined ks tail in
    let shorter : length more ≤ fuel = omega (arith, l, w.0.long, length-append k.seg more) in
    scan_step fuel 0 k.marker k.seg more (w.0.taken more)
    ∙ (ap (λ o. with_segment k.marker k.seg (scan fuel o more))
          (noted_kept k.marker 0 k.seg w.0.kept_marker)
        ∙ (ap (with_segment k.marker k.seg)
              (scan-exif fuel 0 p ks tail w.1 t h (nonzero_of_wants p q) shorter)
            ∙ if_true (keeps k.marker) _ _ w.0.kept_marker))

choose :
    (P : List (List ℕ) → Type 0) (b : Bool) (x y : List (List ℕ))
    → P x
    → P y
    → P (if b then x else y)
choose P true x y h k = h
choose P false x y h k = k

pub scan-written :
    (fuel p : ℕ) (ks : List Segment) (tail : List ℕ)
    → All IsWhole ks
    → move_at tail ≡ stop
    → p < 65536
    → wants_exif p ≡ true
    → length (written (build_exif_orientation p ∷ []) ks tail) ≤ fuel
    → scan fuel 0 (written (build_exif_orientation p ∷ []) ks tail)
      ≡ record { kept = ks; orientation = p; dropped = true; tail = tail }
unfolding concat
scan-written fuel p [] tail w t h k l = scan-exif fuel 0 p [] tail w t h (nonzero_of_wants p k) l
scan-written fuel p (k ∷ ks) tail w t h q l =
    choose
      (λ parts.
        length (concat (parts ++ (tail ∷ []))) ≤ fuel
        → scan fuel 0 (concat (parts ++ (tail ∷ [])))
          ≡ record { kept = k ∷ ks; orientation = p; dropped = true; tail = tail })
      (k.marker == 224) (k.seg ∷ build_exif_orientation p ∷ segs ks)
      (build_exif_orientation p ∷ segs (k ∷ ks)) (λ m. scan-jfif fuel p k ks tail w t h q m)
      (λ m. scan-exif fuel 0 p (k ∷ ks) tail w t h (nonzero_of_wants p q) m) l

pub written_plain : (ks : List Segment) (tail : List ℕ) → written [] ks tail ≡ joined ks tail
unfolding concat
written_plain [] tail = refl
written_plain (k ∷ ks) tail =
    choose (λ parts. concat (parts ++ (tail ∷ [])) ≡ joined (k ∷ ks) tail) (k.marker == 224)
      (segs (k ∷ ks)) (segs (k ∷ ks)) refl refl
