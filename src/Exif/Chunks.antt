-- ===== src/Exif/Chunks.antt =====
-- web/static/exif.js: `stripPng`, `stripWebp`, and `stripMetadata`, which chooses by the magic
-- bytes.
use rivendell.Base.{
  ℕ, zero, suc, ◌+◌, ◌-◌, ◌*◌, ◌/◌, ◌%◌, Bool, true, false, ◌&&◌, ◌||◌, List, [], ◌∷◌, ◌++◌, ltb,
  leb, ◌==◌, if◌then◌else◌, length,
}
use rivendell.Exif.Bytes.{take, drop, byte_at, concat}
use rivendell.Exif.Jpeg.{strip_jpeg}

-- Four bytes, as in a type or a signature.
abbrev pub is_tag : List ℕ → ℕ → ℕ → ℕ → ℕ → ℕ → Bool
is_tag bytes i a b c d =
    byte_at bytes i == a
    && byte_at bytes (i + 1) == b
    && byte_at bytes (i + 2) == c
    && byte_at bytes (i + 3) == d

-- tEXt, zTXt, iTXt, eXIf and tIME.
abbrev pub is_dropped_chunk : List ℕ → Bool
is_dropped_chunk bytes =
    is_tag bytes 4 116 69 88 116
    || is_tag bytes 4 122 84 88 116
    || is_tag bytes 4 105 84 88 116
    || is_tag bytes 4 101 88 73 102
    || is_tag bytes 4 116 73 77 69

-- A length of 2 ^ 31 or more is a negative number in the source.
abbrev pub chunk_length : List ℕ → ℕ
chunk_length bytes =
    byte_at bytes 0 * 16777216 + byte_at bytes 1 * 65536 + byte_at bytes 2 * 256 + byte_at bytes 3

-- The parts that are kept, and whether one was dropped.
unfoldable pub walk_png : ℕ → List ℕ → List (List ℕ) × Bool
walk_png zero bytes = ([], false)
walk_png (suc fuel) bytes =
    let len = chunk_length bytes in
    let end = 12 + len in
    let rest = if is_tag bytes 4 73 69 78 68 then ([], false) else walk_png fuel (drop end bytes) in
    if ltb (length bytes) 8
    then ([], false)
    else if leb 2147483648 len || ltb (length bytes) end
    then ([], false)
    else if is_dropped_chunk bytes
    then (rest.0, true)
    else (take end bytes ∷ rest.0, rest.1)

unfoldable pub strip_png : List ℕ → List ℕ
unfolding walk_png concat
strip_png bytes =
    let walked = walk_png (length bytes) (drop 8 bytes) in
    if walked.1 then concat (take 8 bytes ∷ walked.0) else bytes

abbrev pub riff_chunk_size : List ℕ → ℕ
riff_chunk_size bytes =
    byte_at bytes 4 + byte_at bytes 5 * 256 + byte_at bytes 6 * 65536 + byte_at bytes 7 * 16777216

-- `b & ~0x0c` on a byte.
abbrev pub without_flags : ℕ → ℕ
without_flags b = b - (b / 4 % 4) * 4

abbrev pub set_byte : ℕ → ℕ → List ℕ → List ℕ
set_byte i b [] = []
set_byte zero b (c ∷ bs) = b ∷ bs
set_byte (suc i) b (c ∷ bs) = c ∷ set_byte i b bs

-- A chunk is EXIF or XMP, VP8X, or another one.
abbrev pub kept_chunk : List ℕ → List ℕ → List (List ℕ)
kept_chunk bytes chunk =
    if is_tag bytes 0 69 88 73 70 || is_tag bytes 0 88 77 80 32
    then []
    else if is_tag bytes 0 86 80 56 88
    then set_byte 8 (without_flags (byte_at chunk 8)) chunk ∷ []
    else chunk ∷ []

unfoldable pub walk_webp : ℕ → List ℕ → List (List ℕ) × Bool
walk_webp zero bytes = ([], false)
walk_webp (suc fuel) bytes =
    let size = riff_chunk_size bytes in
    let end = 8 + size + size % 2 in
    let rest = walk_webp fuel (drop end bytes) in
    let kept = kept_chunk bytes (take end bytes) in
    if ltb (length bytes) 8 || ltb (length bytes) end
    then ([], false)
    else (kept ++ rest.0, (length kept == 0) || rest.1)

-- The outer size, in its four bytes.
abbrev pub with_riff_size : ℕ → List ℕ → List ℕ
with_riff_size n bytes = set_byte 4 (n % 256) (
    set_byte 5 (n / 256 % 256)
      (set_byte 6 (n / 65536 % 256) (set_byte 7 (n / 16777216 % 256) bytes)))

unfoldable pub strip_webp : List ℕ → List ℕ
unfolding walk_webp concat
strip_webp bytes =
    let walked = walk_webp (length bytes) (drop 12 bytes) in
    let out = concat (take 12 bytes ∷ walked.0) in
    if walked.1 then with_riff_size (length out - 8) out else bytes

unfoldable pub is_jpeg : List ℕ → Bool
is_jpeg b = leb 3 (length b) && byte_at b 0 == 255 && byte_at b 1 == 216 && byte_at b 2 == 255

unfoldable pub is_png : List ℕ → Bool
is_png b = leb 8 (length b) && is_tag b 0 137 80 78 71 && is_tag b 4 13 10 26 10

unfoldable pub is_webp : List ℕ → Bool
is_webp b = leb 12 (length b) && is_tag b 0 82 73 70 70 && is_tag b 8 87 69 66 80

unfoldable pub strip_metadata : List ℕ → List ℕ
unfolding is_jpeg is_png is_webp strip_jpeg strip_png strip_webp
strip_metadata bytes =
    if is_jpeg bytes
    then strip_jpeg bytes
    else if is_png bytes
    then strip_png bytes
    else if is_webp bytes
    then strip_webp bytes
    else bytes
