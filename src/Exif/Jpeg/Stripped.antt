-- ===== src/Exif/Jpeg/Stripped.antt =====
-- A stripped file is stripped, and shows the same image.
use rivendell.Base.{
  ℕ, ◌≤◌, ◌≡◌, refl, sym, ap, ap₂, subst, ◌∙◌, inl, inr, Bool, true, false, not, ◌&&◌, List, [],
  ◌∷◌, ◌++◌, arith, if◌then◌else◌, Bool-cases, length, All, length-append,
}
use rivendell.Exif.Bytes.{
  take, drop, concat, IsByte, take-append, drop-append, length-take, drop-All,
}
use rivendell.Exif.Orientation.{build_exif_orientation}
use rivendell.Exif.Jpeg.{Scan, scan, wants_exif, output, scan_file, strip_jpeg}
use rivendell.Exif.Jpeg.Scanning.{scan-joined}
use rivendell.Exif.Jpeg.Wholes.{IsScanned, scan-IsScanned}
use rivendell.Base.{ap, ◌∙◌, if◌then◌else◌, length-append, subst, sym, Bool-cases, inl, inr}
use rivendell.Exif.Jpeg.Wholes.{length-drop, scan-IsScanned, IsScanned}
use rivendell.Exif.Jpeg.{output, scan_file, strip_jpeg}
use rivendell.Exif.Bytes.{IsByte, drop, take, take-append, drop-append, length-take, drop-All}
use rivendell.Base.{Bool-cases, inl, inr, subst, sym}
use rivendell.Base.{ap₂, not, ◌&&◌}
use rivendell.Exif.Jpeg.Written.{scan-written, written_plain, written}

-- The orientation that a viewer applies: the one that `stripJpeg` would carry over, or the default.
abbrev pub applied : Scan → ℕ
applied s = if wants_exif s.orientation then s.orientation else 1

-- How the walk of a rewritten file relates to the walk that it was written from.
abbrev pub SameImage : Scan → Scan → Type 0
SameImage t s = (t.kept ≡ s.kept) × (t.tail ≡ s.tail) × (applied t ≡ applied s)

-- The output, from the test of the orientation and that of the drops.
abbrev output_if : List ℕ → Scan → Bool → Bool → List ℕ
unfolding concat build_exif_orientation
output_if bytes s d w =
    if not d && not w
    then bytes
    else take 2 bytes
      ++ written (if w then build_exif_orientation s.orientation ∷ [] else []) s.kept s.tail

output_if_wants :
    (bytes : List ℕ) (s : Scan) (d : Bool)
    → output_if bytes s d true
      ≡ take 2 bytes ++ written (build_exif_orientation s.orientation ∷ []) s.kept s.tail
unfolding output_if
output_if_wants bytes s true = refl
output_if_wants bytes s false = refl

output_unchanged :
    (bytes : List ℕ) (s : Scan)
    → s.dropped ≡ false
    → wants_exif s.orientation ≡ false
    → output bytes s ≡ bytes
unfolding output
output_unchanged bytes s d w = rw (d, w)

output_wants :
    (bytes : List ℕ) (s : Scan)
    → wants_exif s.orientation ≡ true
    → output bytes s
      ≡ take 2 bytes ++ written (build_exif_orientation s.orientation ∷ []) s.kept s.tail
unfolding output concat
output_wants bytes s w = ap (output_if bytes s s.dropped) w ∙ output_if_wants bytes s s.dropped

output_dropped :
    (bytes : List ℕ) (s : Scan)
    → s.dropped ≡ true
    → wants_exif s.orientation ≡ false
    → output bytes s ≡ take 2 bytes ++ written [] s.kept s.tail
unfolding output concat
output_dropped bytes s d w = ap₂ (output_if bytes s) d w

-- Walking a file that keeps its first two bytes.
scan-rewritten :
    (bytes more : List ℕ) (r : Scan)
    → 2 ≤ length bytes
    → ((fuel : ℕ) → length more ≤ fuel → scan fuel 0 more ≡ r)
    → scan_file (take 2 bytes ++ more) ≡ r
unfolding scan_file
scan-rewritten bytes more r h f =
    let n = length (take 2 bytes ++ more) in
    let l = length-append (take 2 bytes) more in
    ap (scan n 0) (drop-append (take 2 bytes) more 2 (length-take bytes 2 h))
    ∙ f n (omega (arith, l))

take_again : (bytes more : List ℕ) → 2 ≤ length bytes → take 2 (take 2 bytes ++ more) ≡ take 2 bytes
take_again bytes more h = take-append (take 2 bytes) more 2 (length-take bytes 2 h)

scan_file-IsScanned : (bytes : List ℕ) → All IsByte bytes → IsScanned (scan_file bytes)
unfolding scan_file
scan_file-IsScanned bytes b =
    scan-IsScanned (length bytes) 0 (drop 2 bytes) (drop-All bytes 2 b)
      (omega (arith, length-drop bytes 2)) (omega arith)

-- The file is stripped, and shows the image of the walk `s`.
abbrev IsStripped : Scan → List ℕ → Type 0
IsStripped s out = (strip_jpeg out ≡ out) × SameImage (scan_file out) s

unchanged-IsStripped :
    (bytes : List ℕ)
    → (scan_file bytes).dropped ≡ false
    → wants_exif (scan_file bytes).orientation ≡ false
    → IsStripped (scan_file bytes) bytes
unfolding strip_jpeg
unchanged-IsStripped bytes d w = (output_unchanged bytes (scan_file bytes) d w, (refl, refl, refl))

wants-IsStripped :
    (bytes : List ℕ) (s : Scan)
    → 2 ≤ length bytes
    → IsScanned s
    → wants_exif s.orientation ≡ true
    → IsStripped s
        (take 2 bytes ++ written (build_exif_orientation s.orientation ∷ []) s.kept s.tail)
unfolding strip_jpeg
wants-IsStripped bytes s h v w =
    let more = written (build_exif_orientation s.orientation ∷ []) s.kept s.tail in
    let out = take 2 bytes ++ more in
    let r : Scan = record {
      kept = s.kept;
      orientation = s.orientation;
      dropped = true;
      tail = s.tail;
    } in
    let again : scan_file out ≡ r =
      scan-rewritten bytes more r h
        (λ fuel l. scan-written fuel s.orientation s.kept s.tail v.whole v.stops v.small w l) in
    (
      ap (output out) again
          ∙ (output_wants out r w ∙ ap (λ b. b ++ more) (take_again bytes more h)),
      subst (λ t. SameImage t s) (sym again) (refl, refl, refl),
    )

dropped-IsStripped :
    (bytes : List ℕ) (s : Scan)
    → 2 ≤ length bytes
    → IsScanned s
    → wants_exif s.orientation ≡ false
    → IsStripped s (take 2 bytes ++ written [] s.kept s.tail)
unfolding strip_jpeg
dropped-IsStripped bytes s h v w =
    let more = written [] s.kept s.tail in
    let out = take 2 bytes ++ more in
    let r : Scan = record { kept = s.kept; orientation = 0; dropped = false; tail = s.tail } in
    let plain = written_plain s.kept s.tail in
    let again : scan_file out ≡ r = scan-rewritten bytes more r h (λ fuel l.
      ap (scan fuel 0) plain
      ∙ scan-joined fuel 0 s.kept s.tail v.whole v.stops (subst (λ x. length x ≤ fuel) plain l)) in
    (
      ap (output out) again ∙ output_unchanged out r refl refl,
      subst (λ t. SameImage t s) (sym again)
          (refl, refl, sym (ap (λ b. if b then s.orientation else 1) w)),
    )

-- Stripping a JPEG file a second time changes nothing, and a stripped file has the image of the
-- original: the same kept segments, the same bytes from the scan on, and the same orientation.
pub strip_jpeg_lem :
    (bytes : List ℕ)
    → 2 ≤ length bytes
    → All IsByte bytes
    → (strip_jpeg (strip_jpeg bytes) ≡ strip_jpeg bytes)
      × SameImage (scan_file (strip_jpeg bytes)) (scan_file bytes)
unfolding strip_jpeg
strip_jpeg_lem bytes h b =
    let s = scan_file bytes in
    let v = scan_file-IsScanned bytes b in
    elim (Bool-cases (wants_exif s.orientation)) [
      | inl w ↦ subst (IsStripped s) (sym (output_wants bytes s w)) (wants-IsStripped bytes s h v w)
      | inr w ↦ elim (Bool-cases s.dropped) [
        | inl d ↦
            subst (IsStripped s) (sym (output_dropped bytes s d w))
              (dropped-IsStripped bytes s h v w)
        | inr d ↦
            subst (IsStripped s) (sym (output_unchanged bytes s d w))
              (unchanged-IsStripped bytes d w)
      ]
    ]
