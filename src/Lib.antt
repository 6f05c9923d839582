-- ===== src/Lib.antt =====
-- rivendell: the logic of the web client, in web/static/*.js.
--
-- The client keeps one state record, which the reducers of web/static/state.js advance: applyEvent
-- takes every realtime event that web/static/ws.js delivers, and web/static/history.js splices
-- fetched pages in. The other modules decide: what an arriving message does (unread.js), whether a
-- presence update is shown (presence.js), under which message a row is grouped (grouping.js), what
-- a preview cache does (previews.js), what leaves an image before its upload (exif.js), and what a
-- call does with its bitrate, its resolution and a broken connection (voice.js).
--
-- Files, and the code that they model:
--   Base                  shared helpers: Boolean tests on numbers, lists and options.
--   IdMap, StrMap         JavaScript objects with numeric keys (kept ascending, as the language
--                         lists them) and with string keys.
--   Sort                  Array.prototype.sort, which is stable, as an insertion sort.
--   Model                 the records of the state and of the payloads.
--   State                 web/static/state.js, a module for each part of the state; Events is
--                         applyEvent, Valid the well-formed states.
--   Presence              web/static/presence.js.
--   Unread                web/static/unread.js: Classify is classifyIncomingMessage, Tracker is
--                         createUnreadTracker.
--   Format                web/static/format.js: Mentions is mentionsUser, Queries the word before the
--                         caret that is to be completed, Permalinks the permalinks and the route of
--                         a click on a notification.
--   Regex                 the regular expressions of the source, matched by backtracking.
--   Html                  escapeHtml of web/static/format.js, and what a browser shows of HTML.
--   Syntax                web/static/syntax.js: Words and Rules are its tables.
--   Realtime              web/static/ws.js: connectRealtime; step is one event of the browser.
--   History               web/static/history.js: createHistoryPaging; turn is one call, or one end
--                         of a fetch.
--   Grouping              web/static/grouping.js and the loop of renderMessages in web/static/app.js.
--   Previews              web/static/previews.js: createPreviewCache.
--   UndoHistory           web/static/composer-richtext.js: createUndoHistory.
--   Recents               web/static/prefs.js: pushRecentEmoji.
--   Exif                  web/static/exif.js: Jpeg is stripJpeg, Chunks the other two formats.
--   JsMap                 a JavaScript Map with numeric keys.
--   Composer              web/static/attachments.js and drafts.js: Tray, the tray of uploads;
--                         web/static/composer-richtext.js: Markers, toggleMarker and flankedDelete;
--                         web/static/autocomplete.js: Autocomplete, the candidates and the popup.
--   Search                web/static/search.js: createSearch; step is a run or the end of a request.
--   ChannelOrder          web/static/channelorder.js.
--   Forward               web/static/forward.js, with the name of a DM (channelorder.js) and its
--                         participants (state.js).
--   Secret                web/static/secret.js: Bytes the byte strings, Crypto what it calls of the
--                         browser, Session the state, Handshake the calls that open a session,
--                         Ratchet its messages, Events handleSecretEvent and the calls that end one.
--   Voice                 web/static/voice.js: Bitrate and Monitor are the congestion control,
--                         Shape the resolution, Motion the screen-motion latch, Reconnect the plans
--                         and timers of one peer, Call the roster and the peers of a call,
--                         Negotiation the offers, answers and candidates.
--   Examples              the theorems at concrete inputs.
--
-- Conventions. A function by clauses takes the state and gives the new one; undefined and null are
-- none, and where the source tells them apart so does the model. Ids, times and bitrates are
-- natural numbers. A bitrate times 0.75, 0.85 or 0.8 and rounded down is the exact quotient: the
-- nearest double of such a product never crosses a whole number. A loss fraction is compared by
-- cross multiplication. An asynchronous operation is two steps, its start and its end, where the
-- steps between them matter. The browser (sockets, timers, getStats, storage) and the server's
-- answers are arguments or parts of the state.
--
-- Parameters: the comparison of names by localeCompare (Collation) is a total preorder. The
-- cryptography of the browser is a record of functions (Crypto), with the laws that honest users
-- rely on (IsSound). Between the start and the end of a send or of a receipt the session of the
-- channel is not replaced, and a call that opens a session is one step.
--
-- Fuel: the walks of Exif have the length of the file, and every step of a walk takes at least one
-- byte. The highlighter has as many rounds as the code has code units, and every rule takes at least
-- one (Syntax/Tables); a repetition in a regular expression has as many rounds as there is text left,
-- more make no difference (Regex/Consuming), and one that takes nothing ends, as in the language. A
-- number is written with sixteen digits, enough below 2^53.
--
-- Texts that are taken apart are lists of code units. toLowerCase and localeCompare of the composer
-- are a parameter (Letters) without laws; so is what parseInt gives for a number (nearest), exact
-- below 2^53.
--
-- Not modelled: the DOM and its rendering, the markdown renderer, the decoration of the composer and
-- its caret, capture and media elements, the pins dialog, the other dialogs and
-- panels, the service worker, and the server.
mod Base
pub mod IdMap
pub mod StrMap
pub mod Sort
pub mod Model
pub mod State
pub mod Presence
pub mod Format
pub mod Unread
pub mod Realtime
pub mod Voice
pub mod Exif
pub mod History
pub mod Grouping
pub mod Previews
pub mod UndoHistory
pub mod Recents
pub mod JsMap
pub mod Regex
pub mod Html
pub mod Syntax
pub mod Composer
pub mod Search
pub mod ChannelOrder
pub mod Forward
pub mod Secret
mod Examples
