-- ===== src/Exif/Jpeg.antt =====
-- web/static/exif.js: `stripJpeg`.
pub mod Scanning
pub mod Wholes
pub mod Written
pub mod Stripped
use rivendell.Base.{
  ℕ, zero, suc, ◌+◌, ◌-◌, ◌*◌, ◌/◌, ◌%◌, ◌^◌, ◌≤◌, ◌<◌, min, max, String, ◌≡◌, refl, sym, ap, ap₂,
  subst, subst₂, ◌∙◌, ◌≢◌, ◌↔◌, ◌⊎◌, inl, inr, Bool, true, false, not, ◌&&◌, ◌||◌, Option, none,
  some, List, [], ◌∷◌, ◌++◌, map, arith, ltb, leb, ◌==◌, if◌then◌else◌, ltb→lt, leb→le, ==_iff,
  ==_refl, Bool-cases, get_or, or_else, is_some, Option-cases, same_id, same_id_refl, matches_id,
  length, get_elem?, filter, any, find, All, length-append, contains, append_nil, append_assoc,
}
use rivendell.Exif.Bytes.{take, drop, concat}
use rivendell.Exif.Orientation.{read_exif_orientation, build_exif_orientation}

pub record Segment : Type 0 where
  pub marker : ℕ
  pub seg : List ℕ

-- What the walk does at a place: it stops, leaves bytes out, or takes a segment of so many bytes.
pub data Move : Type 0 where
  stop : Move
  skip : ℕ → Move
  segment : ℕ → ℕ → Move

-- A segment with this marker and this length field, at the place where `bytes` start.
abbrev pub sized : List ℕ → ℕ → ℕ → Move
sized bytes marker seg_len =
    if ltb seg_len 2 || ltb (length bytes) (2 + seg_len) then stop else segment marker (2 + seg_len)

abbrev pub is_standalone : ℕ → Bool
is_standalone marker = marker == 1 || (leb 208 marker && leb marker 215)

abbrev pub after_marker : List ℕ → ℕ → List ℕ → Move
after_marker bytes marker (hi ∷ lo ∷ rest) =
    if is_standalone marker then skip 2 else sized bytes marker (hi * 256 + lo)
after_marker bytes marker _ = if is_standalone marker then skip 2 else stop

unfoldable pub move_at : List ℕ → Move
move_at (b ∷ marker ∷ rest) =
    let there = after_marker (b ∷ marker ∷ rest) marker rest in
    if not (b == 255)
    then stop
    else if marker == 255
    then skip 1
    else if marker == 217 || marker == 218
    then stop
    else there
move_at _ = stop

abbrev pub keeps : ℕ → Bool
keeps marker = not (
    marker == 254
    || (leb 224 marker && leb marker 239 && not (marker == 224) && not (marker == 226)))

pub record Scan : Type 0 where
  pub kept : List Segment
  pub orientation : ℕ
  pub dropped : Bool
  pub tail : List ℕ

-- A segment that was read, and the walk of what follows it.
abbrev pub with_segment : ℕ → List ℕ → Scan → Scan
with_segment marker seg s =
    if keeps marker
    then record s { kept = record { marker = marker; seg = seg } ∷ s.kept }
    else record s { dropped = true }

abbrev pub noted : ℕ → List ℕ → ℕ → ℕ
unfolding read_exif_orientation
noted marker seg orientation =
    let o = read_exif_orientation (drop 4 seg) in
    if marker == 225 then (if o == 0 then orientation else o) else orientation

unfoldable pub scan : ℕ → ℕ → List ℕ → Scan
unfolding move_at read_exif_orientation
scan zero orientation bytes = record {
  kept = [];
  orientation = orientation;
  dropped = false;
  tail = bytes;
}
scan (suc fuel) orientation bytes = elim (move_at bytes) [
  | stop ↦ record { kept = []; orientation = orientation; dropped = false; tail = bytes }
  | skip n ↦ scan fuel orientation (drop n bytes)
  | segment marker n ↦
      with_segment marker (take n bytes)
        (scan fuel (noted marker (take n bytes) orientation) (drop n bytes))
]

abbrev pub segs : List Segment → List (List ℕ)
segs [] = []
segs (k ∷ ks) = k.seg ∷ segs ks

-- JFIF leads; the new Exif segment comes right after it.
abbrev pub with_exif : List (List ℕ) → List Segment → List (List ℕ)
with_exif exif [] = exif
with_exif exif (k ∷ ks) = if k.marker == 224 then k.seg ∷ exif ++ segs ks else exif ++ segs (k ∷ ks)

abbrev pub wants_exif : ℕ → Bool
wants_exif orientation = not (orientation == 0) && not (orientation == 1)

unfoldable pub output : List ℕ → Scan → List ℕ
unfolding concat build_exif_orientation
output bytes s =
    let exif = if wants_exif s.orientation then build_exif_orientation s.orientation ∷ [] else [] in
    if not s.dropped && not (wants_exif s.orientation)
    then bytes
    else concat ((take 2 bytes ∷ with_exif exif s.kept) ++ (s.tail ∷ []))

unfoldable pub scan_file : List ℕ → Scan
unfolding scan
scan_file bytes = scan (length bytes) 0 (drop 2 bytes)

unfoldable pub strip_jpeg : List ℕ → List ℕ
unfolding output scan_file
strip_jpeg bytes = output bytes (scan_file bytes)
