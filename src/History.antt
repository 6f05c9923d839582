-- ===== src/History.antt =====
-- web/static/history.js: the paging of the message pane. A fetch is two steps, its start, which
-- gives the request, and its end, with the answer of `api.messages` (none if it throws); any other
-- step may come between. `createHistoryPaging`'s variables are the record, its sets lists of ids.
pub mod Pages
use rivendell.Base.{
  ℕ, zero, suc, ◌+◌, ◌-◌, ◌*◌, ◌/◌, ◌%◌, ◌^◌, ◌≤◌, ◌<◌, min, max, String, ◌≡◌, refl, sym, ap, ap₂,
  subst, subst₂, ◌∙◌, ◌≢◌, ◌↔◌, ◌⊎◌, inl, inr, Bool, true, false, not, ◌&&◌, ◌||◌, Option, none,
  some, List, [], ◌∷◌, ◌++◌, map, arith, ltb, leb, ◌==◌, if◌then◌else◌, ltb→lt, leb→le, ==_iff,
  ==_refl, Bool-cases, get_or, or_else, is_some, Option-cases, same_id, same_id_refl, matches_id,
  length, get_elem?, filter, any, find, All, length-append, contains, append_nil, append_assoc,
}
use rivendell.Model.{Message, State}
use rivendell.State.Messages.{
  prepend_messages, append_messages, oldest_message_id, newest_message_id,
}

abbrev pub page : ℕ
page = 50

-- `scrollHeight - scrollTop - clientHeight < threshold`; the content may be shorter than the view.
unfoldable pub is_near_bottom : ℕ → ℕ → ℕ → ℕ → Bool
is_near_bottom scroll_height scroll_top client_height threshold =
    ltb scroll_height (threshold + scroll_top + client_height)

pub record Paging : Type 0 where
  pub loading_older : Bool
  pub loading_newer : Bool
  pub history_complete : List ℕ
  pub viewing_history : List ℕ

abbrev pub add : ℕ → List ℕ → List ℕ
add id ids = if contains ids id then ids else id ∷ ids

abbrev pub delete : ℕ → List ℕ → List ℕ
delete id = filter (λ i. not (i == id))

pub record Pane : Type 0 where
  pub state : State
  pub paging : Paging

-- The channel and the id to page from.
abbrev pub Request : Type 0
Request = ℕ × ℕ

unfoldable pub start_older : Pane → Pane × Option Request
unfolding oldest_message_id
start_older p = elim p.state.active_channel_id [
  | none ↦ (p, none)
  | some cid ↦ elim (oldest_message_id p.state cid) [
    | none ↦ (p, none)
    | some oldest ↦
        if p.paging.loading_older || contains p.paging.history_complete cid
        then (p, none)
        else (record p { paging = record p.paging { loading_older = true } }, some (cid, oldest))
  ]
]

-- A page is merged whether or not its channel is still the active one.
unfoldable pub end_older : ℕ → Option (List Message) → Pane → Pane
unfolding prepend_messages
end_older cid none p = record p { paging = record p.paging { loading_older = false } }
end_older cid (some older) p = record p {
  state = if length older == 0 then p.state else prepend_messages p.state cid older;
  paging = record p.paging {
    loading_older = false;
    history_complete =
        if ltb (length older) page
        then add cid p.paging.history_complete
        else p.paging.history_complete;
  };
}

unfoldable pub start_newer : Pane → Pane × Option Request
unfolding newest_message_id
start_newer p = elim p.state.active_channel_id [
  | none ↦ (p, none)
  | some cid ↦ elim (newest_message_id p.state cid) [
    | none ↦ (p, none)
    | some newest ↦
        if p.paging.loading_newer || not (contains p.paging.viewing_history cid)
        then (p, none)
        else (record p { paging = record p.paging { loading_newer = true } }, some (cid, newest))
  ]
]

-- A page is merged only while its channel is the active one.
unfoldable pub end_newer : ℕ → Option (List Message) → Pane → Pane
unfolding append_messages
end_newer cid none p = record p { paging = record p.paging { loading_newer = false } }
end_newer cid (some newer) p = record p {
  state =
      if not (length newer == 0) && same_id (some cid) p.state.active_channel_id
      then append_messages p.state cid newer
      else p.state;
  paging = record p.paging {
    loading_newer = false;
    viewing_history =
        if ltb (length newer) page
        then delete cid p.paging.viewing_history
        else p.paging.viewing_history;
  };
}

unfoldable pub reset_for_channel : ℕ → Paging → Paging
reset_for_channel id p = record p {
  loading_older = false;
  loading_newer = false;
  viewing_history = delete id p.viewing_history;
}

unfoldable pub note_loaded_page : ℕ → ℕ → Paging → Paging
note_loaded_page id page_len p = record p {
  history_complete =
      if ltb page_len page then add id p.history_complete else delete id p.history_complete;
}

unfoldable pub clear_history_complete : ℕ → Paging → Paging
clear_history_complete id p = record p { history_complete = delete id p.history_complete }

unfoldable pub mark_viewing_history : ℕ → Paging → Paging
mark_viewing_history id p = record p { viewing_history = add id p.viewing_history }

unfoldable pub is_viewing_history : ℕ → Paging → Bool
is_viewing_history id p = contains p.viewing_history id

pub data Input : Type 0 where
  older_starts newer_starts : Input
  older_ends newer_ends : ℕ → Option (List Message) → Input
  resets clears marks : ℕ → Input
  notes : ℕ → ℕ → Input

unfoldable pub turn : Pane → Input → Pane
unfolding start_older start_newer end_older end_newer reset_for_channel note_loaded_page
    clear_history_complete mark_viewing_history
turn p older_starts = (start_older p).0
turn p newer_starts = (start_newer p).0
turn p (older_ends cid answer) = end_older cid answer p
turn p (newer_ends cid answer) = end_newer cid answer p
turn p (resets id) = record p { paging = reset_for_channel id p.paging }
turn p (clears id) = record p { paging = clear_history_complete id p.paging }
turn p (marks id) = record p { paging = mark_viewing_history id p.paging }
turn p (notes id n) = record p { paging = note_loaded_page id n p.paging }
