-- ===== src/Exif/Orientation.antt =====
-- `readExifOrientation` and `buildExifOrientation`.
use rivendell.Base.{
  ℕ, zero, suc, ◌+◌, ◌*◌, ◌/◌, ◌%◌, ◌<◌, ◌≡◌, refl, Bool, true, false, not, ◌&&◌, List, [], ◌∷◌,
  arith, ltb, ◌==◌, if◌then◌else◌, length,
}
use rivendell.Exif.Bytes.{byte_at}

abbrev pub orientation_tag : ℕ
orientation_tag = 274

abbrev pub u16 : Bool → List ℕ → ℕ → ℕ
u16 true p o = byte_at p o + byte_at p (o + 1) * 256
u16 false p o = byte_at p o * 256 + byte_at p (o + 1)

abbrev pub u32 : Bool → List ℕ → ℕ → ℕ
u32 true p o =
    byte_at p o + byte_at p (o + 1) * 256 + byte_at p (o + 2) * 65536 + byte_at p (o + 3) * 16777216
u32 false p o =
    byte_at p o * 16777216 + byte_at p (o + 1) * 65536 + byte_at p (o + 2) * 256 + byte_at p (o + 3)

-- The loop over the entries, of which `n` are left from `entry` on.
unfoldable pub find_orientation : Bool → List ℕ → ℕ → ℕ → ℕ
find_orientation le p entry zero = 0
find_orientation le p entry (suc n) =
    let rest = find_orientation le p (entry + 12) n in
    if ltb (length p) (entry + 12)
    then 0
    else if u16 le p entry == orientation_tag
    then u16 le p (entry + 8)
    else rest

abbrev pub starts_exif : List ℕ → Bool
starts_exif p =
    byte_at p 0 == 69
    && byte_at p 1 == 120
    && byte_at p 2 == 105
    && byte_at p 3 == 102
    && byte_at p 4 == 0
    && byte_at p 5 == 0

-- From the byte order on.
unfoldable pub read_ordered : Bool → List ℕ → ℕ
unfolding find_orientation
read_ordered le p =
    let ifd0 = 6 + u32 le p 10 in
    if not (u16 le p 8 == 42)
    then 0
    else if ltb (length p) (ifd0 + 2)
    then 0
    else find_orientation le p (ifd0 + 2) (u16 le p ifd0)

unfoldable pub read_exif_orientation : List ℕ → ℕ
unfolding read_ordered
read_exif_orientation p =
    if ltb (length p) 14
    then 0
    else if not (starts_exif p)
    then 0
    else if byte_at p 6 == 73 && byte_at p 7 == 73
    then read_ordered true p
    else if byte_at p 6 == 77 && byte_at p 7 == 77
    then read_ordered false p
    else 0

abbrev pub exif_payload : ℕ → List ℕ
exif_payload orientation =
    69
    ∷ 120
    ∷ 105
    ∷ 102
    ∷ 0
    ∷ 0
    ∷ 73
    ∷ 73
    ∷ 42
    ∷ 0
    ∷ 8
    ∷ 0
    ∷ 0
    ∷ 0
    ∷ 1
    ∷ 0
    ∷ 18
    ∷ 1
    ∷ 3
    ∷ 0
    ∷ 1
    ∷ 0
    ∷ 0
    ∷ 0
    ∷ orientation % 256
    ∷ (orientation / 256) % 256
    ∷ 0
    ∷ 0
    ∷ 0
    ∷ 0
    ∷ 0
    ∷ 0
    ∷ []

-- The segment's length, with its own two bytes, is 34.
unfoldable pub build_exif_orientation : ℕ → List ℕ
build_exif_orientation orientation = 255 ∷ 225 ∷ 0 ∷ 34 ∷ exif_payload orientation

read_payload : (o : ℕ) → read_exif_orientation (exif_payload o) ≡ o % 256 + (o / 256) % 256 * 256
unfolding read_exif_orientation read_ordered find_orientation
read_payload o = refl

-- The orientation written in a segment is read back from its payload.
pub read-build : (o : ℕ) → o < 65536 → read_exif_orientation (exif_payload o) ≡ o
read-build o h = omega (arith, read_payload o)
