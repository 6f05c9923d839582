-- ===== src/Exif.antt =====
-- web/static/exif.js: metadata is stripped from images. A file is the list of its bytes, numbers
-- below 256, so that the source's shifts and ors are sums. A walk at index `i` is a walk of the
-- bytes from `i` on, and `subarray(i, end)` is their first `end - i`. Its fuel is the length of the
-- file, and every step consumes a byte or more.
pub mod Bytes
pub mod Orientation
pub mod Jpeg
pub mod Chunks
