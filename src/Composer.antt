-- ===== src/Composer.antt =====
-- web/static/attachments.js and web/static/drafts.js: the composer's uploads and drafts.
pub mod Autocomplete
pub mod Markers
pub mod Tray
